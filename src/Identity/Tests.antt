-- ===== src/Identity/Tests.antt =====
-- The comparison of keys at concrete inputs; the texts stand for themselves in place of hashes.
use Prim.Native.Char.{code}
use ep2pchat.Base.{ℕ, ◌≡◌, refl, String, none, some, List, [], ◌∷◌, string_dec}
use ep2pchat.Identity.{
  text_before, sorted_pair, derive_safety_number, fingerprint_of, calculate_fingerprint,
}
use ep2pchat.Identity.Symmetric.{verification_comm}
use ep2pchat.Identity.Unavailable.{fingerprint-own}

abbrev codes : String → List ℕ
codes String.[] = []
codes (String.◌∷◌ c s) = code c ∷ codes s

abbrev unhashed : List ℕ → List ℕ
unhashed bytes = bytes

safety_number-ab :
    derive_safety_number codes unhashed "b" "a"
    ≡ "24956" ∷ "25185" ∷ "31842" ∷ "24956" ∷ "25185" ∷ "31842" ∷ "24956" ∷ "25185" ∷ "31842"
      ∷ "24956" ∷ "25185" ∷ "31842" ∷ []
unfolding derive_safety_number sorted_pair text_before
safety_number-ab = refl

fingerprint-ab : calculate_fingerprint codes unhashed "b" (some "a") ≡ "617C 62"
unfolding calculate_fingerprint sorted_pair text_before fingerprint_of string_dec
fingerprint-ab = refl

verification_comm_example :
    (derive_safety_number codes unhashed "b" "a" ≡ derive_safety_number codes unhashed "a" "b")
    × (calculate_fingerprint codes unhashed "b" (some "a")
        ≡ calculate_fingerprint codes unhashed "a" (some "b"))
verification_comm_example = verification_comm codes unhashed "b" "a"

fingerprint-own_example :
    calculate_fingerprint codes unhashed "b" none ≡ fingerprint_of codes unhashed "|b"
unfolding string_dec
fingerprint-own_example = fingerprint-own codes unhashed "b" refl
