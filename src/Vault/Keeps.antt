-- ===== src/Vault/Keeps.antt =====
-- vault.ts: predicates on the tables that an operation keeps, with one rule for each way in which
-- the operations are built.
use ep2pchat.Base.{
  ◌≡◌, refl, sym, subst, inl, inr, String, Option, none, some, Bool-cases, Option-cases,
}
use ep2pchat.Base.Exec.{Result, ok, err, Exec, pure, throw, catch, ◌>>=◌}
use ep2pchat.Vault.Db.{
  Tables, Db, next_fails, spent, execute, select, begin_transaction, commit, rollback, init_vault,
}
use ep2pchat.Vault.Init.{init_vault-rows}
use ep2pchat.Vault.Transaction.{transaction}

module _ (Q : Tables → Type 0) where
  abbrev pub OfSaved : Option Tables → Type 0
  OfSaved none = Unit
  OfSaved (some t) = Q t

  -- `Q` holds of the tables, and of those that a rollback would bring back.
  pub record Holds (d : Db) : Type 0 where
    pub current : Q d.tables
    pub restored : OfSaved d.saved

  -- Whether `m` returns or throws, and whatever fails in it.
  pub record Keeps {A : Type 0} (m : Exec Db A) : Type 0 where
    pub at : (d : Db) → Holds d → Holds (m d).1

  abbrev pub KeptBy : (Tables → Option Tables) → Type 0
  KeptBy f = (t u : Tables) → Q t → f t ≡ some u → Q u

  pub Keeps-pure : {A : Type 0} (a : A) → Keeps (pure a)
  Keeps-pure a = record { at = λ d h. h }

  pub Keeps-throw : {A : Type 0} (e : String) → Keeps (throw {A = A} e)
  Keeps-throw e = record { at = λ d h. h }

  moved : {d : Db} (e : Db) → Holds d → e.tables ≡ d.tables → e.saved ≡ d.saved → Holds e
  moved e h t s = record {
    current = subst Q (sym t) h.current;
    restored = subst OfSaved (sym s) h.restored;
  }

  pub Keeps-execute : (f : Tables → Option Tables) → KeptBy f → Keeps (execute f)
  unfolding execute
  Keeps-execute f k = record {
    at = λ d h. elim (Bool-cases (next_fails d.faults)) [
      | inl b ↦ rw (b, execute) (moved (spent d) h refl refl)
      | inr b ↦ elim (Option-cases (f d.tables)) [
        | inl e ↦ rw (b, e, execute) (moved (spent d) h refl refl)
        | inr (u, e) ↦
            rw (b, e, execute)
              (record { current = k d.tables u h.current e; restored = h.restored })
      ]
    ];
  }

  pub Keeps-select : {A : Type 0} (f : Tables → A) → Keeps (select f)
  unfolding select
  Keeps-select f = record {
    at = λ d h. elim (Bool-cases (next_fails d.faults)) [
      | inl b ↦ rw (b, select) (moved (spent d) h refl refl)
      | inr b ↦ rw (b, select) (moved (spent d) h refl refl)
    ];
  }

  pub Keeps-begin : Keeps begin_transaction
  unfolding begin_transaction
  Keeps-begin = record {
    at = λ d h. elim (Bool-cases (next_fails d.faults)) [
      | inl b ↦ rw (b, begin_transaction) (moved (spent d) h refl refl)
      | inr b ↦ elim (Option-cases d.saved) [
        | inl e ↦
            rw (b, e, begin_transaction) (record { current = h.current; restored = h.current })
        | inr (t, e) ↦ rw (b, e, begin_transaction) (moved (spent d) h refl refl)
      ]
    ];
  }

  pub Keeps-commit : Keeps commit
  unfolding commit
  Keeps-commit = record {
    at = λ d h. elim (Bool-cases (next_fails d.faults)) [
      | inl b ↦ rw (b, commit) (moved (spent d) h refl refl)
      | inr b ↦ elim (Option-cases d.saved) [
        | inl e ↦ rw (b, e, commit) (moved (spent d) h refl refl)
        | inr (t, e) ↦ rw (b, e, commit) (record { current = h.current; restored = tt })
      ]
    ];
  }

  pub Keeps-rollback : Keeps rollback
  unfolding rollback
  Keeps-rollback = record {
    at = λ d h. elim (Bool-cases (next_fails d.faults)) [
      | inl b ↦ rw (b, rollback) (moved (spent d) h refl refl)
      | inr b ↦ elim (Option-cases d.saved) [
        | inl e ↦ rw (b, e, rollback) (moved (spent d) h refl refl)
        | inr (t, e) ↦
            rw (b, e, rollback) (record { current = subst OfSaved e h.restored; restored = tt })
      ]
    ];
  }

  continued :
      {A B : Type 0} (r : Result A) (d : Db) (f : A → Exec Db B)
      → Holds d
      → ((a : A) → Keeps (f a))
      → Holds (((λ _. (r, d)) >>= f) d).1
  continued (ok a) d f h k = (k a).at d h
  continued (err e) d f h k = h

  pub Keeps-bind :
      {A B : Type 0} (m : Exec Db A) (f : A → Exec Db B)
      → Keeps m
      → ((a : A) → Keeps (f a))
      → Keeps (m >>= f)
  Keeps-bind m f k l = record { at = λ d h. continued (m d).0 (m d).1 f (k.at d h) l }

  recovered :
      {A : Type 0} (r : Result A) (d : Db) (f : String → Exec Db A)
      → Holds d
      → ((e : String) → Keeps (f e))
      → Holds (catch (λ _. (r, d)) f d).1
  recovered (ok a) d f h k = h
  recovered (err e) d f h k = (k e).at d h

  pub Keeps-catch :
      {A : Type 0} (m : Exec Db A) (f : String → Exec Db A)
      → Keeps m
      → ((e : String) → Keeps (f e))
      → Keeps (catch m f)
  Keeps-catch m f k l = record { at = λ d h. recovered (m d).0 (m d).1 f (k.at d h) l }

  pub Keeps-transaction : (body : Exec Db (Unit {0})) → Keeps body → Keeps (transaction body)
  unfolding transaction
  Keeps-transaction body k = Keeps-bind begin_transaction _ Keeps-begin (λ _.
      Keeps-catch _ _ (Keeps-bind body _ k (λ _. Keeps-commit))
        (λ e. Keeps-bind rollback _ Keeps-rollback (λ _. Keeps-throw e)))

  pub Keeps-init_vault : Keeps init_vault
  Keeps-init_vault = record {
    at = λ d h. let (t, s) = init_vault-rows d in moved (init_vault d).1 h t s;
  }
