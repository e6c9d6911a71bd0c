-- ===== src/Identity/Unavailable.antt =====
-- IdentityModal.tsx: a contact whose key is not known.
use text.Mathlib.TextLemmas.{nil-append}
use ep2pchat.Base.{ℕ, ◌≡◌, refl, ap, String, true, none, List, truthy, text_append, string_dec}
use ep2pchat.Identity.{text_before, sorted_pair, fingerprint_of, calculate_fingerprint}

nonempty-last : (s : String) → truthy s ≡ true → sorted_pair s "" ≡ ("", s)
unfolding sorted_pair text_before string_dec
nonempty-last String.[] h = cc
nonempty-last (String.◌∷◌ c s) h = refl

module _ (encode : String → List ℕ) (sha256 : List ℕ → List ℕ) where
  -- Where the own key is not empty and the contact has no device, what is shown is the fingerprint
  -- of the own key alone, and not that the recipient's keys are unavailable.
  pub fingerprint-own :
      (identity_public : String)
      → truthy identity_public ≡ true
      → calculate_fingerprint encode sha256 identity_public none
        ≡ fingerprint_of encode sha256 (text_append "|" identity_public)
  unfolding calculate_fingerprint
  fingerprint-own identity_public h =
      rw (nonempty-last identity_public h)
        (rw h (ap (fingerprint_of encode sha256) (nil-append (text_append "|" identity_public))))
