-- ===== src/Base/Distinct.antt =====
-- A Set of texts as the list of its members in the order of their insertion.
use Prim.Native.String.{String}
use mathlib.Core.Path.{◌≡◌, refl, sym, ap, ◌∙◌}
use mathlib.Core.Logic.{◌≢◌}
use mathlib.Core.Bool.{Bool, true, false}
use mathlib.Core.List.{List, [], ◌∷◌, ◌++◌}
use native.Mathlib.Omega.{arith}
use ep2pchat.Base.Tests.{if-both}
use ep2pchat.Base.Text.{string_dec}
use ep2pchat.Base.Lists.{All, All-append, keep_if}

-- A set keeps the first of equal texts, in the order of the insertions.
unfoldable pub distinct : List String → List String
distinct [] = []
distinct (x ∷ xs) =
    x ∷ keep_if (λ y. elim (string_dec y x) [ yes _ ↦ false | no _ ↦ true ]) (distinct xs)

-- No text stands twice.
abbrev pub IsDistinct : List String → Type 0
IsDistinct [] = Unit
IsDistinct (x ∷ xs) = All (λ y. y ≢ x) xs × IsDistinct xs

abbrev is_other : String → String → Bool
is_other x y = elim (string_dec y x) [ yes _ ↦ false | no _ ↦ true ]

All-keep_if :
    (P : String → Type 0) (b : String → Bool) (xs : List String) → All P xs → All P (keep_if b xs)
All-keep_if P b [] h = tt
All-keep_if P b (x ∷ xs) h =
    if-both (All P) (b x) _ _ (λ _. (h.0, All-keep_if P b xs h.1)) (All-keep_if P b xs h.1)

pub keep_if-IsDistinct :
    (b : String → Bool) (xs : List String) → IsDistinct xs → IsDistinct (keep_if b xs)
keep_if-IsDistinct b [] h = tt
keep_if-IsDistinct b (x ∷ xs) h =
    if-both IsDistinct (b x) _ _
      (λ _. (All-keep_if (λ y. y ≢ x) b xs h.0, keep_if-IsDistinct b xs h.1))
      (keep_if-IsDistinct b xs h.1)

is_other-ne : (x y : String) → is_other x y ≡ true → y ≢ x
is_other-ne x y h = ground arith

keep_if-others :
    (x : String) (xs : List String)
    → All (λ y. y ≢ x) (keep_if (λ y. elim (string_dec y x) [ yes _ ↦ false | no _ ↦ true ]) xs)
keep_if-others x [] = tt
keep_if-others x (y ∷ ys) =
    if-both (All (λ z. z ≢ x)) (is_other x y) _ _ (λ e. (is_other-ne x y e, keep_if-others x ys))
      (keep_if-others x ys)

pub distinct-IsDistinct : (xs : List String) → IsDistinct (distinct xs)
unfolding distinct
distinct-IsDistinct [] = tt
distinct-IsDistinct (x ∷ xs) =
    (keep_if-others x (distinct xs), keep_if-IsDistinct _ (distinct xs) (distinct-IsDistinct xs))

keep_if-All :
    (x : String) (xs : List String)
    → All (λ y. y ≢ x) xs
    → keep_if (λ y. elim (string_dec y x) [ yes _ ↦ false | no _ ↦ true ]) xs ≡ xs
keep_if-All x [] h = refl
keep_if-All x (y ∷ ys) h = ground (arith, h.0, keep_if-All x ys h.1)

-- A set of distinct members is made into itself.
pub distinct_self : (xs : List String) → IsDistinct xs → distinct xs ≡ xs
unfolding distinct
distinct_self [] h = refl
distinct_self (x ∷ xs) h =
    ap (λ ys. x ∷ ys)
      (ap (keep_if (λ y. elim (string_dec y x) [ yes _ ↦ false | no _ ↦ true ]))
          (distinct_self xs h.1)
        ∙ keep_if-All x xs h.0)

pub append-IsDistinct :
    (x : String) (xs : List String)
    → IsDistinct xs
    → All (λ y. y ≢ x) xs
    → IsDistinct (xs ++ x ∷ [])
append-IsDistinct x [] h k = (tt, tt)
append-IsDistinct x (y ∷ ys) h k = (
  All-append (λ z. z ≢ y) ys (x ∷ []) h.0 ((λ e. k.0 (sym e)), tt),
  append-IsDistinct x ys h.1 k.1,
)
