-- ===== src/Auth/Accounts.antt =====
-- AuthFlow.tsx, `saveAccount`: `Array.from(new Set([email, ...savedAccounts])).slice(0, 5)`.
use ep2pchat.Base.{
  ℕ, zero, suc, ◌≤◌, ◌≡◌, ◌≢◌, refl, String, List, [], ◌∷◌, arith, length, All, head?, some,
}
use ep2pchat.Base.Distinct.{distinct, IsDistinct, distinct-IsDistinct}

unfoldable pub take : ℕ → List String → List String
take zero xs = []
take (suc n) [] = []
take (suc n) (x ∷ xs) = x ∷ take n xs

unfoldable pub save_account : String → List String → List String
save_account email accounts = take 5 (distinct (email ∷ accounts))

All-take : (P : String → Type 0) (n : ℕ) (xs : List String) → All P xs → All P (take n xs)
unfolding take
All-take P zero xs h = tt
All-take P (suc n) [] h = tt
All-take P (suc n) (x ∷ xs) h = (h.0, All-take P n xs h.1)

take-IsDistinct : (n : ℕ) (xs : List String) → IsDistinct xs → IsDistinct (take n xs)
unfolding take
take-IsDistinct zero xs h = tt
take-IsDistinct (suc n) [] h = tt
take-IsDistinct (suc n) (x ∷ xs) h = (All-take (λ y. y ≢ x) n xs h.0, take-IsDistinct n xs h.1)

length-take : (n : ℕ) (xs : List String) → length (take n xs) ≤ n
unfolding take
length-take zero xs = omega arith
length-take (suc n) [] = omega arith
length-take (suc n) (x ∷ xs) = omega (arith, length-take n xs)

-- What the accounts are to be: at most five, and none of them twice.
pub record IsSaved (accounts : List String) : Type 0 where
  pub at_most : length accounts ≤ 5
  pub apart : IsDistinct accounts

-- Whatever was stored before, the accounts that are kept are at most five and differ, and the one
-- that signs in is the first of them.
pub save_account-IsSaved :
    (email : String) (accounts : List String)
    → IsSaved (save_account email accounts) × (head? (save_account email accounts) ≡ some email)
unfolding save_account distinct take
save_account-IsSaved email accounts = (
  record {
    at_most = length-take 5 (distinct (email ∷ accounts));
    apart =
        take-IsDistinct 5 (distinct (email ∷ accounts)) (distinct-IsDistinct (email ∷ accounts));
  },
  refl,
)
