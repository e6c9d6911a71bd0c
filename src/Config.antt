-- ===== src/Config.antt =====
-- constants/config.ts: the addresses of the server, from what the build was configured with.
use Prim.Native.Char.{Char, code}
use Prim.Native.String.append
use ep2pchat.Base.{
  ◌≡◌, refl, ap, ◌∙◌, ite, String, text_append, string_dec, Bool, true, false, Option, none, some,
  if◌then◌else◌, nat_eq, is_space, truthy?, or_else,
}

-- What Vite and the window say: the two variables, whether it is a development build, and the address
-- that the page is from.
pub record Env : Type 0 where
  pub vite_api_base_url : Option String
  pub vite_ws_base_url : Option String
  pub dev : Bool
  pub protocol : String
  pub host : String

abbrev is_slash : Char → Bool
is_slash c = nat_eq (code c) 47

abbrev kept : Bool → Char → String → String
kept true c String.[] = String.[]
kept true c (String.◌∷◌ d s) = String.◌∷◌ c (String.◌∷◌ d s)
kept false c s = String.◌∷◌ c s

-- `value` without the characters at its end that `p` says are to go.
abbrev strip_end : (Char → Bool) → String → String
strip_end p String.[] = String.[]
strip_end p (String.◌∷◌ c s) = kept (p c) c (strip_end p s)

-- `value.replace(/\/+$/, "")`
abbrev pub trim_trailing_slash : String → String
trim_trailing_slash value = strip_end is_slash value

abbrev trim_start : String → String
trim_start String.[] = String.[]
trim_start (String.◌∷◌ c s) =
    let rest = trim_start s in if is_space (code c) then rest else String.◌∷◌ c s

-- `String.prototype.trim`
abbrev trim : String → String
trim s = strip_end (λ c. is_space (code c)) (trim_start s)

abbrev trim? : Option String → Option String
trim? none = none
trim? (some s) = some (trim s)

-- The variable where it is set and not blank, and the default otherwise.
abbrev configured_or : Option String → String → String
configured_or configured fallback =
    if truthy? (trim? configured)
    then trim_trailing_slash (or_else (trim? configured) "")
    else fallback

abbrev pub api_base_url : Env → String
api_base_url env =
    configured_or env.vite_api_base_url
      (if env.dev then "/api/v1" else "https://api.encryptedchat.in/api/v1")

-- `${protocol}://${window.location.host}/ws`
abbrev page_ws : Env → String
page_ws env =
    text_append (ite (string_dec env.protocol "https:") "wss" "ws")
      (text_append "://" (text_append env.host "/ws"))

abbrev pub ws_base_url : Env → String
ws_base_url env =
    configured_or env.vite_ws_base_url
      (if env.dev then page_ws env else "wss://api.encryptedchat.in/ws")

-- Whether the text ends in a slash; `b` where it is empty.
abbrev ends_after : Bool → String → Bool
ends_after b String.[] = b
ends_after b (String.◌∷◌ c s) = ends_after (is_slash c) s

abbrev pub ends_in_slash : String → Bool
ends_in_slash s = ends_after false s

ends_after-append :
    (b : Bool) (s t : String) → ends_after b (text_append s t) ≡ ends_after (ends_after b s) t
ends_after-append b String.[] t = ap (ends_after b) (append.nil t)
ends_after-append b (String.◌∷◌ c s) t =
    ap (ends_after b) (append.cons c s t) ∙ ends_after-append (is_slash c) s t

kept-ends :
    (b : Bool) (c : Char) (r : String)
    → is_slash c ≡ b
    → ends_in_slash r ≡ false
    → ends_in_slash (kept b c r) ≡ false
kept-ends true c String.[] e h = refl
kept-ends true c (String.◌∷◌ d s) e h = h
kept-ends false c String.[] e h = e
kept-ends false c (String.◌∷◌ d s) e h = h

-- A text without the slashes at its end does not end in one.
pub trim_trailing_slash-ends : (s : String) → ends_in_slash (trim_trailing_slash s) ≡ false
trim_trailing_slash-ends String.[] = refl
trim_trailing_slash-ends (String.◌∷◌ c s) =
    kept-ends (is_slash c) c (trim_trailing_slash s) refl (trim_trailing_slash-ends s)

page_ws-ends : (env : Env) → ends_in_slash (page_ws env) ≡ false
page_ws-ends env =
    ends_after-append false (ite (string_dec env.protocol "https:") "wss" "ws") _
    ∙ ends_after-append _ "://" (text_append env.host "/ws")
    ∙ ends_after-append _ env.host "/ws"

configured_or-ends :
    (configured : Option String) (fallback : String)
    → ends_in_slash fallback ≡ false
    → ends_in_slash (configured_or configured fallback) ≡ false
configured_or-ends configured fallback h =
    elim (truthy? (trim? configured))
      as (λ b.
        ends_in_slash (if b then trim_trailing_slash (or_else (trim? configured) "") else fallback)
        ≡ false) [ true ↦ trim_trailing_slash-ends (or_else (trim? configured) "") | false ↦ h ]

-- Whatever the build was configured with, neither address ends in a slash, so that a path that
-- begins with one can follow.
pub base_urls-ends :
    (env : Env)
    → (ends_in_slash (api_base_url env) ≡ false) × (ends_in_slash (ws_base_url env) ≡ false)
base_urls-ends env = (
  configured_or-ends env.vite_api_base_url _
      (elim env.dev
        as (λ d.
          ends_in_slash (if d then "/api/v1" else "https://api.encryptedchat.in/api/v1") ≡ false) [
            | true ↦ refl
            | false ↦ refl
          ]),
  configured_or-ends env.vite_ws_base_url _
      (elim env.dev
        as (λ d.
          ends_in_slash (if d then page_ws env else "wss://api.encryptedchat.in/ws") ≡ false) [
            | true ↦ page_ws-ends env
            | false ↦ refl
          ]),
)
