-- ===== src/Vault/Shared.antt =====
-- vault.ts, `initVault` between its awaits: the promise `dbInitPromise` that calls share while one of
-- them opens the database. The openings are numbered in the order in which they are begun, and a
-- connection has the number of its opening.
pub mod Single
pub mod Tests
use ep2pchat.Base.{ℕ, suc, ◌<◌, ◌≡◌, ite, ℕ_discrete, Bool, true, false, Option, none, some, update}

-- How an opening ended: the database was opened; it failed with no connection, in the keychain or in
-- Database.load; or it failed after Database.load, whose connection nobody closes.
pub data End : Type 0 where
  opened unloaded abandoned : End

-- The call that began the opening waits for the keychain and Database.load, waits for a statement
-- on the connection that Database.load gave, has still its `finally` to run, or is over.
pub data Attempt : Type 0 where
  loading : Attempt
  preparing : Attempt
  settled : End → Attempt
  over : End → Attempt

pub record Shared : Type 0 where
  pub db : Option ℕ
  pub db_init_promise : Option ℕ
  pub attempts : ℕ → Attempt
  pub made : ℕ

abbrev pub unopened : Shared
unopened = record { db = none; db_init_promise = none; attempts = λ i. over unloaded; made = 0 }

abbrev begin : Option ℕ → Option ℕ → Shared → Shared
begin (some c) p s = s
begin none (some p) s = s
begin none none s = record {
  db = none;
  db_init_promise = some s.made;
  attempts = update s.attempts s.made loading;
  made = suc s.made;
}

-- A call up to its first await: `if (db) return db; if (dbInitPromise) return dbInitPromise;`, or a
-- new opening.
abbrev pub call_init : Shared → Shared
call_init s = begin s.db s.db_init_promise s

-- One turn of the event loop: a call, a step or the end of an opening, or the `finally` of the call that began
-- one.
pub data Turn (s : Shared) : Shared → Type 0 where
  begins : Turn s (call_init s)
  loads :
      (i : ℕ)
      → i < s.made
      → s.attempts i ≡ loading
      → Turn s (record s { attempts = update s.attempts i preparing })
  opens :
      (i : ℕ)
      → i < s.made
      → s.attempts i ≡ preparing
      → Turn s (record s { db = some i; attempts = update s.attempts i (settled opened) })
  fails_loading :
      (i : ℕ)
      → i < s.made
      → s.attempts i ≡ loading
      → Turn s (record s { attempts = update s.attempts i (settled unloaded) })
  fails_preparing :
      (i : ℕ)
      → i < s.made
      → s.attempts i ≡ preparing
      → Turn s (record s { attempts = update s.attempts i (settled abandoned) })
  cleans :
      (i : ℕ) (b : End)
      → i < s.made
      → s.attempts i ≡ settled b
      → Turn s (record s { db_init_promise = none; attempts = update s.attempts i (over b) })

pub data Reaches (s : Shared) : Shared → Type 0 where
  here : Reaches s s
  then : {t u : Shared} → Reaches s t → Turn t u → Reaches s u
