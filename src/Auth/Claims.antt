-- ===== src/Auth/Claims.antt =====
-- AuthFlow.tsx, `decodeJwtClaims`: the second part of a token, from base64url to base64 with its
-- padding, and then JSON.
use Prim.Native.Char.{Char, char, code}
use ep2pchat.Base.{
  ℕ, zero, suc, ◌-◌, ◌%◌, String, Option, none, some, List, ite, ℕ_discrete, text_append,
}
use ep2pchat.Base.Codec.{Json, Base64}

-- What stands after the first character of that code, and before it.
unfoldable pub after_code : ℕ → String → Option String
after_code n String.[] = none
after_code n (String.◌∷◌ c s) = ite (ℕ_discrete (code c) n) (some s) (after_code n s)

unfoldable pub until_code : ℕ → String → String
until_code n String.[] = ""
until_code n (String.◌∷◌ c s) =
    let rest = until_code n s in ite (ℕ_discrete (code c) n) "" (String.◌∷◌ c rest)

-- `-` is `+` in base64, and `_` is `/`.
abbrev standard : Char → Char
standard c = ite (ℕ_discrete (code c) 45) (char 43 tt) (ite (ℕ_discrete (code c) 95) (char 47 tt) c)

unfoldable pub to_base64 : String → String
to_base64 String.[] = String.[]
to_base64 (String.◌∷◌ c s) = String.◌∷◌ (standard c) (to_base64 s)

abbrev pub size : String → ℕ
size String.[] = 0
size (String.◌∷◌ c s) = suc (size s)

abbrev pub repeat : ℕ → String → String
repeat zero s = ""
repeat (suc n) s = text_append s (repeat n s)

-- `base64 + "=".repeat((4 - (base64.length % 4)) % 4)`
unfoldable pub padded : String → String
padded s = text_append s (repeat ((4 - size s % 4) % 4) "=")

module _ (json : Json) (b64 : Base64) (binary_text : List ℕ → String) where
  abbrev parse_bytes : Option (List ℕ) → Option json.Value
  parse_bytes none = none
  parse_bytes (some bytes) = json.parse (binary_text bytes)

  abbrev claims_of : Option String → Option json.Value
  claims_of none = none
  claims_of (some rest) = parse_bytes (b64.decode (padded (to_base64 (until_code 46 rest))))

  -- `none` is null, which a failure gives too.
  unfoldable pub decode_jwt_claims : String → Option json.Value
  decode_jwt_claims token = claims_of (after_code 46 token)

  abbrev role_of : Option json.Value → Option String
  role_of none = none
  role_of (some v) = json.field v "role"

  -- `claims?.role`
  unfoldable pub claimed_role : String → Option String
  claimed_role token = role_of (decode_jwt_claims token)
