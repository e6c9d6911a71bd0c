-- ===== src/Errors/Attempt.antt =====
-- An asynchronous function that may throw what utils/errors.ts sorts: an action on a state. What
-- was written before the throw stays written.
use ep2pchat.Errors.{Thrown}

pub data Outcome {ℓ} (A : Type ℓ) : Type ℓ where
  given : A → Outcome A
  thrown : Thrown → Outcome A

abbrev pub Attempt {ℓ} : Type ℓ → Type ℓ → Type ℓ
Attempt S A = S → Outcome A × S

module _ {ℓ} {S A : Type ℓ} where
  abbrev pub give : A → Attempt S A
  give a s = (given a, s)

  abbrev pub raise : Thrown → Attempt S A
  raise e s = (thrown e, s)

  -- What the server or the native part gave.
  abbrev pub reply : Outcome A → Attempt S A
  reply o s = (o, s)

  abbrev pub settle : Outcome A × S → (A → S → S) → (Thrown → S → S) → S
  settle (given a, s) f g = f a s
  settle (thrown e, s) f g = g e s

  -- `try { f(await m) } catch (e) { g(e) }` where `f` does not throw.
  abbrev pub settled : Attempt S A → (A → S → S) → (Thrown → S → S) → S → S
  settled m f g s = settle (m s) f g

module _ {ℓ} {S A B : Type ℓ} where
  abbrev next : Outcome A × S → (A → Attempt S B) → Outcome B × S
  next (given a, s) f = f a s
  next (thrown e, s) f = (thrown e, s)

  infixl 5 ◌>>=◌ ◌>>◌
  abbrev pub ◌>>=◌ : Attempt S A → (A → Attempt S B) → Attempt S B
  ◌>>=◌ m f s = next (m s) f

  abbrev pub ◌>>◌ : Attempt S A → Attempt S B → Attempt S B
  m >> n = m >>= λ _. n
