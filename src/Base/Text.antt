-- ===== src/Base/Text.antt =====
-- Texts compared as a whole: a decision procedure, and the truth value that the source gives them.
use Prim.Native.String
use Prim.Native.String.{String}
use text.Mathlib.Text.{◌==◌}
use text.Mathlib.TextEquality.{eq_iff}
use mathlib.Core.Path.{◌≡◌, refl}
use mathlib.Core.Logic.{◌↔◌}
use mathlib.Core.Bool.{Bool, true, false, false≢true, ◌&&◌, ◌||◌}
use Prim.Native.Nat.{ℕ}
use Prim.Native.Char.{Char, code}
use text.Mathlib.TextLemmas.{cons≢nil}
use ep2pchat.Base.Tests.{leb, nat_eq}
use mathlib.Core.Option.{Option, none, some}

abbrev dec_of_test {ℓ} : {P : Type ℓ} (b : Bool) → (b ≡ true) ↔ P → Dec P
dec_of_test true e = yes (e.0 refl)
dec_of_test false e = no (λ p. false≢true (e.1 p))

abbrev pub text_append : String → String → String
text_append = String.◌++◌

unfoldable pub string_dec : (s t : String) → Dec (s ≡ t)
string_dec s t = dec_of_test (s == t) (eq_iff s t)

-- The white space that `trim` takes off.
abbrev pub is_space : ℕ → Bool
is_space c =
    leb 9 c && leb c 13
    || nat_eq c 32
    || nat_eq c 160
    || nat_eq c 5760
    || leb 8192 c && leb c 8202
    || nat_eq c 8232
    || nat_eq c 8233
    || nat_eq c 8239
    || nat_eq c 8287
    || nat_eq c 12288
    || nat_eq c 65279

-- `!s.trim()`
abbrev pub is_blank : String → Bool
is_blank String.[] = true
is_blank (String.◌∷◌ c s) = is_space (code c) && is_blank s

-- The test `if (s)` on a string: the empty one is false.
abbrev pub truthy : String → Bool
truthy s = elim (string_dec s "") [ yes _ ↦ false | no _ ↦ true ]

pub truthy-cons : (c : Char) (s : String) → truthy (String.◌∷◌ c s) ≡ true
truthy-cons c s =
    elim (string_dec (String.◌∷◌ c s) "")
      as (λ (x : Dec (String.◌∷◌ c s ≡ "")). elim x [ yes _ ↦ false | no _ ↦ true ] ≡ true) [
        | yes p ↦ absurd (cons≢nil p)
        | no n ↦ refl
      ]

-- `if (s)` on a string that may be null or undefined.
abbrev pub truthy? : Option String → Bool
truthy? none = false
truthy? (some s) = truthy s

-- `a || b` on strings that may be null.
abbrev pub or_text : Option String → Option String → Option String
or_text none b = b
or_text (some s) b = elim (string_dec s "") [ yes _ ↦ b | no _ ↦ some s ]
