-- ===== src/Vault/Init.antt =====
-- vault.ts, `initVault`: what it leaves alone, and when the vault is open after it.
use ep2pchat.Base.{
  ◌≡◌, refl, ◌∙◌, inl, inr, ℕ, zero, suc, String, true, false, arith, Bool-cases, if-true, if-false,
}
use ep2pchat.Base.Exec.{Result, ok, err, Exec, catch, ◌>>=◌, ◌>>◌}
use ep2pchat.Vault.Db.{
  Db, touch, touches, get_vault_passphrase, attempted, backfill, unlock, unlock_keychain, migrate,
  mark_opened, open_vault, init_vault,
}

-- The rows, the open transaction and whether the vault is open.
pub record Same (d e : Db) : Type 0 where
  pub tables : e.tables ≡ d.tables
  pub saved : e.saved ≡ d.saved
  pub opened : e.opened ≡ d.opened

touch-Same : (d : Db) → Same d (touch d).1
unfolding touch
touch-Same d = ground arith

Same-trans : {d e f : Db} → Same d e → Same e f → Same d f
Same-trans p q = ground arith

module _ {A B : Type 0} where
  continued-Same :
      (d e : Db) (r : Result A) (f : A → Exec Db B)
      → Same d e
      → ((a : A) → Same e (f a e).1)
      → Same d (((λ _. (r, e)) >>= f) d).1
  continued-Same d e (ok a) f p q = Same-trans p (q a)
  continued-Same d e (err x) f p q = p

  bind-Same :
      (m : Exec Db A) (f : A → Exec Db B) (d : Db)
      → Same d (m d).1
      → ((a : A) (e : Db) → Same e (f a e).1)
      → Same d ((m >>= f) d).1
  bind-Same m f d p q = continued-Same d (m d).1 (m d).0 f p (λ a. q a (m d).1)

module _ {A : Type 0} where
  recovered-Same :
      (d e : Db) (r : Result A) (f : String → Exec Db A)
      → Same d e
      → ((x : String) → Same e (f x e).1)
      → Same d (catch (λ _. (r, e)) f d).1
  recovered-Same d e (ok a) f p q = p
  recovered-Same d e (err x) f p q = Same-trans p (q x)

  catch-Same :
      (m : Exec Db A) (f : String → Exec Db A) (d : Db)
      → Same d (m d).1
      → ((x : String) (e : Db) → Same e (f x e).1)
      → Same d (catch m f d).1
  catch-Same m f d p q = recovered-Same d (m d).1 (m d).0 f p (λ x. q x (m d).1)

Same-refl : (d : Db) → Same d d
Same-refl d = ground arith

touches-Same : (n : ℕ) (d : Db) → Same d (touches n d).1
unfolding touches
touches-Same zero d = Same-refl d
touches-Same (suc n) d = bind-Same touch _ d (touch-Same d) (λ _ e. touches-Same n e)

pub passphrase-Same : (d : Db) → Same d (get_vault_passphrase d).1
unfolding get_vault_passphrase
passphrase-Same d = ground (arith, touch-Same d)

unlock-Same : (d : Db) → Same d (unlock d).1
unfolding unlock
unlock-Same d = catch-Same (touches 8) _ d (touches-Same 8 d) (λ _ e. Same-refl e)

attempted-Same : (m : Exec Db (Unit {0})) (d : Db) → Same d (m d).1 → Same d (attempted m d).1
unfolding attempted
attempted-Same m d p = catch-Same m _ d p (λ _ e. Same-refl e)

backfill-Same : (d : Db) → Same d (backfill d).1
unfolding backfill
backfill-Same d = bind-Same touch _ d (touch-Same d) λ _ e. elim (Bool-cases e.fts_empty) [
  | inl t ↦ rw (if-true e.fts_empty (touch e) (ok tt, e) t) (touch-Same e)
  | inr f ↦ rw (if-false e.fts_empty (touch e) (ok tt, e) f) (Same-refl e)
]

migrate-Same : (d : Db) → Same d (migrate d).1
unfolding migrate
migrate-Same d =
    let column = λ (e : Db). attempted-Same touch e (touch-Same e) in
    bind-Same (attempted touch) _ d (column d) λ _ e1.
      bind-Same (attempted touch) _ e1 (column e1) λ _ e2.
        bind-Same (attempted touch) _ e2 (column e2) λ _ e3.
          bind-Same (attempted touch) _ e3 (column e3) λ _ e4.
            bind-Same (attempted touch) _ e4 (column e4)
              λ _ e5. attempted-Same backfill e5 (backfill-Same e5)

-- The rows are those of `d`, and the vault is open exactly if the call has returned.
pub data Opening (d : Db) : Result (Unit {0}) × Db → Type 0 where
  opens :
      (e : Db) → e.opened ≡ true → e.tables ≡ d.tables → e.saved ≡ d.saved → Opening d (ok tt, e)
  fails :
      (x : String) (e : Db)
      → e.opened ≡ false
      → e.tables ≡ d.tables
      → e.saved ≡ d.saved
      → Opening d (err x, e)

module _ {A : Type 0} (d : Db) (closed : d.opened ≡ false) where
  continued-Opening :
      (e : Db) (r : Result A) (f : A → Exec Db (Unit {0}))
      → Same d e
      → ((a : A) → Opening d (f a e))
      → Opening d (((λ _. (r, e)) >>= f) d)
  continued-Opening e (ok a) f p q = q a
  continued-Opening e (err x) f p q = fails x e (p.opened ∙ closed) p.tables p.saved

  bind-Opening :
      (m : Exec Db A) (f : A → Exec Db (Unit {0})) (e : Db)
      → Same d e
      → Same e (m e).1
      → ((a : A) (g : Db) → Same d g → Opening d (f a g))
      → Opening d ((m >>= f) e)
  bind-Opening m f e p r q =
      let s = Same-trans p r in continued-Opening (m e).1 (m e).0 f s (λ a. q a (m e).1 s)

unlock_keychain-Same : (d : Db) → Same d (unlock_keychain d).1
unfolding unlock_keychain
unlock_keychain-Same d =
    catch-Same get_vault_passphrase _ d (passphrase-Same d) (λ _ e. Same-refl e)

open_vault-Opening : (d : Db) → d.opened ≡ false → Opening d (open_vault d)
unfolding open_vault mark_opened
open_vault-Opening d closed =
    let schema = touches 11 >> (migrate >> mark_opened) in
    bind-Opening d closed unlock_keychain (λ _. touch >> (unlock >> schema)) d (Same-refl d)
      (unlock_keychain-Same d)
      λ _ e1 p1.
        bind-Opening d closed touch (λ _. unlock >> schema) e1 p1 (touch-Same e1)
          λ _ e2 p2.
            bind-Opening d closed unlock (λ _. schema) e2 p2 (unlock-Same e2)
              λ _ e3 p3.
                bind-Opening d closed (touches 11) (λ _. migrate >> mark_opened) e3 p3
                  (touches-Same 11 e3)
                  λ _ e4 p4.
                    bind-Opening d closed migrate (λ _. mark_opened) e4 p4 (migrate-Same e4)
                      λ _ e5 p5. opens (record e5 { opened = true }) refl p5.tables p5.saved

-- On a closed vault `initVault` returns with the vault open, or throws and leaves it closed, so
-- that the next operation tries again; the rows and the open transaction are as before.
pub init_vault-Opening : (d : Db) → d.opened ≡ false → Opening d (init_vault d)
unfolding init_vault
init_vault-Opening d closed =
    rw (if-false d.opened (ok tt, d) (open_vault d) closed) (open_vault-Opening d closed)

pub init_vault-opened : (d : Db) → d.opened ≡ true → init_vault d ≡ (ok tt, d)
unfolding init_vault
init_vault-opened d e = if-true d.opened (ok tt, d) (open_vault d) e

init_rows :
    (d : Db) (r : Result (Unit {0}) × Db)
    → Opening d r
    → (r.1.tables ≡ d.tables) × (r.1.saved ≡ d.saved)
init_rows d r (opens e o t s) = (t, s)
init_rows d r (fails x e o t s) = (t, s)

-- In either case it leaves the rows alone.
pub init_vault-rows :
    (d : Db) → ((init_vault d).1.tables ≡ d.tables) × ((init_vault d).1.saved ≡ d.saved)
init_vault-rows d = elim (Bool-cases d.opened) [
  | inl e ↦ rw (init_vault-opened d e) (refl, refl)
  | inr e ↦ init_rows d (init_vault d) (init_vault-Opening d e)
]
