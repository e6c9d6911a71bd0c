-- ===== src/Base/Tests.antt =====
-- The conditional, Boolean tests and the case lemmas by which proofs split on a computed value.
use Prim.Native.Nat.{ℕ, compare, Ordering}
use mathlib.Core.Path.{◌≡◌, refl}
use mathlib.Core.Logic.{◌⊎◌, inl, inr, ite}
use mathlib.Core.Bool.{Bool, true, false}
use mathlib.Core.Option.{Option, none, some}

abbrev pub leb : ℕ → ℕ → Bool
leb a b = elim (compare a b) [ Ordering.gt ↦ false | _ ↦ true ]

abbrev pub nat_eq : ℕ → ℕ → Bool
nat_eq a b = elim (compare a b) [ Ordering.eq ↦ true | _ ↦ false ]

infix 1 if◌then◌else◌
abbrev pub if◌then◌else◌ {ℓ} : {A : Type ℓ} → Bool → A → A → A
if true then x else y = x
if false then x else y = y

pub Bool-cases : (b : Bool) → (b ≡ true) ⊎ (b ≡ false)
Bool-cases true = inl refl
Bool-cases false = inr refl

pub Option-cases {ℓ} : {A : Type ℓ} (o : Option A) → (o ≡ none) ⊎ ((a : A) × (o ≡ some a))
Option-cases none = inl refl
Option-cases (some a) = inr (a, refl)

-- `a ?? b`.
abbrev pub or_else {ℓ} : {A : Type ℓ} → Option A → A → A
or_else none d = d
or_else (some a) d = a

abbrev pub is_some {ℓ} : {A : Type ℓ} → Option A → Bool
is_some none = false
is_some (some a) = true

pub if-true {ℓ} : {A : Type ℓ} (b : Bool) (x y : A) → b ≡ true → (if b then x else y) ≡ x
if-true true x y h = refl
if-true false x y h = cc

pub if-false {ℓ} : {A : Type ℓ} (b : Bool) (x y : A) → b ≡ false → (if b then x else y) ≡ y
if-false false x y h = refl
if-false true x y h = cc

pub if-same {ℓ κ} :
    {A : Type ℓ} {B : Type κ} (t : Bool) (f : A → B) (x y : A) {z : B}
    → f x ≡ z
    → f y ≡ z
    → f (if t then x else y) ≡ z
if-same true f x y p q = p
if-same false f x y p q = q

-- A predicate of both branches, of the first where the test holds.
pub if-both {ℓ κ} :
    {A : Type ℓ} (P : A → Type κ) (t : Bool) (x y : A)
    → (t ≡ true → P x)
    → P y
    → P (if t then x else y)
if-both P true x y p q = p refl
if-both P false x y p q = q

pub ite-same {ℓ κ} :
    {P : Type 0} {A : Type ℓ} {B : Type κ} (d : Dec P) (f : A → B) (x y : A) {z : B}
    → f x ≡ z
    → f y ≡ z
    → f (ite d x y) ≡ z
ite-same (yes _) f x y p q = p
ite-same (no _) f x y p q = q
