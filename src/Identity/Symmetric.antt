-- ===== src/Identity/Symmetric.antt =====
-- SafetyNumberModal.tsx and IdentityModal.tsx: both sides compute the same.
use Prim.Native.Char.{Char, code}
use text.Mathlib.TextEquality.{Char-path}
use ep2pchat.Base.{
  ℕ, ◌≡◌, refl, ap, ◌∙◌, String, true, false, some, List, arith, Bool-cases, inl, inr,
}
use ep2pchat.Identity.{text_before, sorted_pair, derive_safety_number, calculate_fingerprint}

-- What two texts that begin with a character say where neither stands before the other.
record Alike (c d : Char) (s t : String) : Type 0 where
  codes : code c ≡ code d
  rest : text_before s t ≡ false
  rest_back : text_before t s ≡ false

-- Of two different texts one stands before the other.
text_before-cases : (s t : String) → text_before s t ≡ false → text_before t s ≡ false → s ≡ t
unfolding text_before
text_before-cases String.[] String.[] p q = refl
text_before-cases String.[] (String.◌∷◌ d t) p q = cc
text_before-cases (String.◌∷◌ c s) String.[] p q = cc
text_before-cases (String.◌∷◌ c s) (String.◌∷◌ d t) p q =
    let a : Alike c d s t = record {
      codes = ground arith;
      rest = ground arith;
      rest_back = ground arith;
    } in
    ap (λ x. String.◌∷◌ x s) (Char-path c d a.codes)
    ∙ ap (λ x. String.◌∷◌ d x) (text_before-cases s t a.rest a.rest_back)

text_before-asym : (s t : String) → text_before s t ≡ true → text_before t s ≡ false
unfolding text_before
text_before-asym s String.[] p = cc
text_before-asym String.[] (String.◌∷◌ d t) p = refl
text_before-asym (String.◌∷◌ c s) (String.◌∷◌ d t) p = ground (arith, text_before-asym s t)

sorted_pair_comm : (a b : String) → sorted_pair a b ≡ sorted_pair b a
unfolding sorted_pair
sorted_pair_comm a b = elim (Bool-cases (text_before a b)) [
  | inl p ↦ rw (p, text_before-asym a b p) refl
  | inr p ↦ elim (Bool-cases (text_before b a)) [
    | inl q ↦ rw (p, q) refl
    | inr q ↦ rw (p, q, text_before-cases a b p q) refl
  ]
]

module _ (encode : String → List ℕ) (sha256 : List ℕ → List ℕ) where
  -- The two sides of a conversation, each of which has its own key and the other's, compute the same
  -- safety number and show the same fingerprint.
  pub verification_comm :
      (a b : String)
      → (derive_safety_number encode sha256 a b ≡ derive_safety_number encode sha256 b a)
        × (calculate_fingerprint encode sha256 a (some b)
            ≡ calculate_fingerprint encode sha256 b (some a))
  unfolding derive_safety_number calculate_fingerprint
  verification_comm a b = rw (sorted_pair_comm a b) (refl, refl)
