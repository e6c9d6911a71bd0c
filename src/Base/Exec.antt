-- ===== src/Base/Exec.antt =====
-- An asynchronous function that may throw: an action on a state that returns or raises. What was
-- written before the throw stays written.
use Prim.Native.String.{String}
use mathlib.Core.Path.{◌≡◌, refl}

pub data Result {ℓ} (A : Type ℓ) : Type ℓ where
  ok : A → Result A
  err : String → Result A

abbrev pub Exec {ℓ} : Type ℓ → Type ℓ → Type ℓ
Exec S A = S → Result A × S

module _ {ℓ} {S A : Type ℓ} where
  abbrev pub pure : A → Exec S A
  pure a s = (ok a, s)

  abbrev pub throw : String → Exec S A
  throw e s = (err e, s)

  abbrev recover : Result A × S → (String → Exec S A) → Result A × S
  recover (ok a, s) h = (ok a, s)
  recover (err e, s) h = h e s

  -- `try { m } catch (e) { h(e) }`
  abbrev pub catch : Exec S A → (String → Exec S A) → Exec S A
  catch m h s = recover (m s) h

module _ {ℓ} {S A B : Type ℓ} where
  abbrev continue : Result A × S → (A → Exec S B) → Result B × S
  continue (ok a, s) f = f a s
  continue (err e, s) f = (err e, s)

  infixl 5 ◌>>=◌ ◌>>◌
  abbrev pub ◌>>=◌ : Exec S A → (A → Exec S B) → Exec S B
  ◌>>=◌ m f s = continue (m s) f

  abbrev pub ◌>>◌ : Exec S A → Exec S B → Exec S B
  m >> n = m >>= λ _. n

-- What holds of a chain: of each step that throws, and of the rest where the step returns.
module _ {ℓ} {S A B : Type ℓ} (R : Result B × S → Type ℓ) where
  continue_cases :
      (r : Result A × S) (f : A → Exec S B)
      → ((x : String) (t : S) → r ≡ (err x, t) → R (err x, t))
      → ((a : A) (t : S) → r ≡ (ok a, t) → R (f a t))
      → R (continue r f)
  continue_cases (ok a, t) f bad good = good a t refl
  continue_cases (err x, t) f bad good = bad x t refl

  pub bind_cases :
      (m : Exec S A) (f : A → Exec S B) (s : S)
      → ((x : String) (t : S) → m s ≡ (err x, t) → R (err x, t))
      → ((a : A) (t : S) → m s ≡ (ok a, t) → R (f a t))
      → R ((m >>= f) s)
  bind_cases m f s bad good = continue_cases (m s) f bad good

module _ {ℓ} {S A : Type ℓ} (R : Result A × S → Type ℓ) where
  recover_cases :
      (r : Result A × S) (h : String → Exec S A)
      → ((x : String) (t : S) → r ≡ (err x, t) → R (h x t))
      → ((a : A) (t : S) → r ≡ (ok a, t) → R (ok a, t))
      → R (recover r h)
  recover_cases (ok a, t) h bad good = good a t refl
  recover_cases (err x, t) h bad good = bad x t refl

  pub catch_cases :
      (m : Exec S A) (h : String → Exec S A) (s : S)
      → ((x : String) (t : S) → m s ≡ (err x, t) → R (h x t))
      → ((a : A) (t : S) → m s ≡ (ok a, t) → R (ok a, t))
      → R (catch m h s)
  catch_cases m h s bad good = recover_cases (m s) h bad good
