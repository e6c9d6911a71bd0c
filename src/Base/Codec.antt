-- ===== src/Base/Codec.antt =====
-- What the client uses of the platform's codecs: btoa and atob over byte arrays, and JSON.
use Prim.Native.Nat.{ℕ, ◌<◌}
use Prim.Native.String.{String}
use mathlib.Core.Path.{◌≡◌}
use mathlib.Core.Option.{Option, none, some}
use mathlib.Core.List.{List, [], ◌∷◌}
use mathlib.Core.Logic.{ite}
use ep2pchat.Base.Text.{string_dec}
use ep2pchat.Base.Lists.{All}

-- `encode` is btoa(String.fromCharCode(...bytes)), which throws (`none`) on a value over 255, and
-- `decode` is Uint8Array.from(atob(s), c => c.charCodeAt(0)), which throws on other texts.
pub record Base64 : Type 0 where
  pub encode : List ℕ → Option String
  pub decode : String → Option (List ℕ)
  pub encode_bytes :
      (bs : List ℕ)
      → All (λ b. b < 256) bs
      → (s : String) × (encode bs ≡ some s) × (decode s ≡ some bs)

-- The field of an object that the program builds, whose keys differ: the first of the name.
abbrev pub entry : String → List (String × Option String) → Option String
entry k [] = none
entry k ((j, v) ∷ fs) = ite (string_dec j k) v (entry k fs)

-- JSON.parse throws (`none`) on a text that is no JSON; `field v k` is `v.k` where that is a string,
-- and `member v k` where it is an object, and `none` else; `empty` is `{}`, and `object fs` has the
-- fields of the list, which are strings, null or undefined.
pub record Json : Type 1 where
  pub Value : Type 0
  pub parse : String → Option Value
  pub stringify : Value → String
  pub field : Value → String → Option String
  pub member : Value → String → Option Value
  pub empty : Value
  pub object : List (String × Option String) → Value
  pub parse-stringify : (v : Value) → parse (stringify v) ≡ some v
  pub field-empty : (k : String) → field empty k ≡ none
  pub field-object :
      (fs : List (String × Option String)) (k : String) → field (object fs) k ≡ entry k fs
  pub member-object :
      (fs : List (String × Option String)) (k : String) → member (object fs) k ≡ none
