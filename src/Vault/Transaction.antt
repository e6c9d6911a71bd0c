-- ===== src/Vault/Transaction.antt =====
-- vault.ts: `BEGIN; try { …; COMMIT } catch (e) { ROLLBACK; throw e }`, which `storeOtpkBatch` and
-- `importVaultData` write out.
use ep2pchat.Base.{
  ◌≡◌, refl, sym, ap, ◌∙◌, inl, inr, String, Bool, true, false, none, some, List, Bool-cases,
}
use ep2pchat.Base.Exec.{Result, ok, err, Exec, throw, catch, ◌>>◌}
use ep2pchat.Vault.Db.{Tables, Db, next_fails, later, spent, begin_transaction, commit, rollback}

unfoldable pub transaction : Exec Db (Unit {0}) → Exec Db (Unit {0})
transaction body = do begin_transaction; catch (body >> commit) (λ e. rollback >> throw e)

-- The state in which the body starts.
abbrev pub begun : Db → Db
begun d = record (spent d) { saved = some d.tables }

-- The body opens and ends no transaction of its own.
abbrev pub KeepsSaved : Exec Db (Unit {0}) → Type 0
KeepsSaved body = (d : Db) → (body d).1.saved ≡ d.saved

-- The body or the COMMIT after it fails: `r` is what the body returned, and `fs` says which statements
-- fail after it.
abbrev pub Fails : Result (Unit {0}) → List Bool → Type 0
Fails (ok _) fs = next_fails fs ≡ true
Fails (err e) fs = Unit

-- Which statements fail once it is time for the ROLLBACK.
abbrev pub rollback_faults : Result (Unit {0}) → List Bool → List Bool
rollback_faults (ok _) fs = later fs
rollback_faults (err e) fs = fs

-- What is in force after a transaction that started in `d` and whose body returned `r` in the state
-- `b`: nothing of it, as the BEGIN failed; all of it, as neither the body nor the COMMIT did; nothing
-- of it, as one of them failed and the ROLLBACK did not; or, as the ROLLBACK failed too, it is still
-- open, and the old tables are what another ROLLBACK will restore.
pub data Outcome (d : Db) (r : Result (Unit {0})) (b : Db) : Result (Unit {0}) × Db → Type 0 where
  refused : next_fails d.faults ≡ true → Outcome d r b (err "database error", spent d)
  committed :
      (t : Db)
      → next_fails d.faults ≡ false
      → r ≡ ok tt
      → next_fails b.faults ≡ false
      → t.tables ≡ b.tables
      → t.saved ≡ none
      → Outcome d r b (ok tt, t)
  rolled_back :
      (e : String) (t : Db)
      → next_fails d.faults ≡ false
      → Fails r b.faults
      → next_fails (rollback_faults r b.faults) ≡ false
      → t.tables ≡ d.tables
      → t.saved ≡ none
      → Outcome d r b (err e, t)
  left_open :
      (e : String) (t : Db)
      → next_fails d.faults ≡ false
      → Fails r b.faults
      → next_fails (rollback_faults r b.faults) ≡ true
      → t.saved ≡ some d.tables
      → Outcome d r b (err e, t)

rollback-failing :
    (d : Db) → next_fails d.faults ≡ true → rollback d ≡ (err "database error", spent d)
unfolding rollback
rollback-failing d f = rw (f, rollback)

pub rollback-working :
    (d : Db) (t : Tables)
    → next_fails d.faults ≡ false
    → d.saved ≡ some t
    → rollback d ≡ (ok tt, record (spent d) { tables = t; saved = none })
unfolding rollback
rollback-working d t f h = rw (f, h, rollback)

-- `c` is the state in which the ROLLBACK runs.
rollback-Outcome :
    (d : Db) (r : Result (Unit {0})) (b : Db) (e : String) (c : Db)
    → next_fails d.faults ≡ false
    → Fails r b.faults
    → c.faults ≡ rollback_faults r b.faults
    → c.saved ≡ some d.tables
    → Outcome d r b ((rollback >> throw e) c)
rollback-Outcome d r b e c g f w h = elim (Bool-cases (next_fails c.faults)) [
  | inl x ↦
      rw (rollback-failing c x)
        (left_open "database error" (spent c) g f (ap next_fails (sym w) ∙ x) h)
  | inr x ↦
      rw (rollback-working c d.tables x h)
        (rolled_back e _ g f (ap next_fails (sym w) ∙ x) refl refl)
]

commit-failing : (d : Db) → next_fails d.faults ≡ true → commit d ≡ (err "database error", spent d)
unfolding commit
commit-failing d f = rw (f, commit)

pub commit-working :
    (d : Db) (t : Tables)
    → next_fails d.faults ≡ false
    → d.saved ≡ some t
    → commit d ≡ (ok tt, record (spent d) { saved = none })
unfolding commit
commit-working d t f h = rw (f, h, commit)

commit-Outcome :
    (d b : Db)
    → next_fails d.faults ≡ false
    → b.saved ≡ some d.tables
    → Outcome d (ok tt) b (catch commit (λ e. rollback >> throw e) b)
commit-Outcome d b g h = elim (Bool-cases (next_fails b.faults)) [
  | inl f ↦
      rw (commit-failing b f) (rollback-Outcome d (ok tt) b "database error" (spent b) g f refl h)
  | inr f ↦ rw (commit-working b d.tables f h) (committed _ g refl f refl refl)
]

begin-failing :
    (d : Db) → next_fails d.faults ≡ true → begin_transaction d ≡ (err "database error", spent d)
unfolding begin_transaction
begin-failing d f = rw (f, begin_transaction)

pub begin-working :
    (d : Db) → next_fails d.faults ≡ false → d.saved ≡ none → begin_transaction d ≡ (ok tt, begun d)
unfolding begin_transaction
begin-working d f h = rw (f, h, begin_transaction)

-- The body has returned `r` in the state `d`.
abbrev pub closing : Result (Unit {0}) × Db → Result (Unit {0}) × Db
closing r = catch ((λ _. r) >> commit) (λ e. rollback >> throw e) r.1

closing-Outcome :
    (d : Db) (r : Result (Unit {0})) (b : Db)
    → next_fails d.faults ≡ false
    → b.saved ≡ some d.tables
    → Outcome d r b (closing (r, b))
closing-Outcome d (ok _) b g h = commit-Outcome d b g h
closing-Outcome d (err e) b g h = rollback-Outcome d (err e) b e b g tt refl h

-- A transaction that starts outside of another one, with a body that opens and ends none, is refused
-- where the BEGIN fails; ends with what its body wrote where nothing fails; ends with the tables that
-- were there where the body or the COMMIT fails; and where then the ROLLBACK fails too, ends inside a
-- transaction that still holds those tables.
pub transaction-Outcome :
    (body : Exec Db (Unit {0})) (d : Db)
    → KeepsSaved body
    → d.saved ≡ none
    → Outcome d (body (begun d)).0 (body (begun d)).1 (transaction body d)
unfolding transaction
transaction-Outcome body d keeps h = elim (Bool-cases (next_fails d.faults)) [
  | inl f ↦ rw (begin-failing d f, transaction) (refused f)
  | inr f ↦
      rw (begin-working d f h, transaction)
        (closing-Outcome d (body (begun d)).0 (body (begun d)).1 f (keeps (begun d)))
]
