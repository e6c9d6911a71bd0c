-- ===== src/Vault/Shared/Single.antt =====
-- vault.ts, `initVault`: there is one connection, but for those that failed openings leave.
use ep2pchat.Base.{ℕ, ◌<◌, ◌≡◌, refl, Option, none, some, update, arith}
use ep2pchat.Vault.Shared.{
  End, opened, unloaded, abandoned, Attempt, loading, preparing, settled, over, Shared, unopened,
  begin, Turn, begins, loads, opens, fails_loading, fails_preparing, cleans, Reaches, here, then,
}

-- What an attempt says of the two variables.
abbrev Says : Option ℕ → Option ℕ → ℕ → Attempt → Type 0
Says db promise i loading = (promise ≡ some i) × (db ≡ none)
Says db promise i preparing = (promise ≡ some i) × (db ≡ none)
Says db promise i (settled opened) = (promise ≡ some i) × (db ≡ some i)
Says db promise i (settled unloaded) = (promise ≡ some i) × (db ≡ none)
Says db promise i (settled abandoned) = (promise ≡ some i) × (db ≡ none)
Says db promise i (over opened) = db ≡ some i
Says db promise i (over unloaded) = Unit
Says db promise i (over abandoned) = Unit

-- A database is being opened or was, and the opening has not failed.
abbrev pub IsLive : Attempt → Type 0
IsLive loading = Unit
IsLive preparing = Unit
IsLive (settled e) = e ≡ opened
IsLive (over e) = e ≡ opened

record IsSingle (s : Shared) : Type 0 where
  says : (i : ℕ) → i < s.made → Says s.db s.db_init_promise i (s.attempts i)
  bound : (c : ℕ) → s.db ≡ some c → c < s.made
  pending : (p : ℕ) → s.db_init_promise ≡ some p → p < s.made

module _ (s : Shared) (h : IsSingle s) where
  begin-IsSingle : (c p : Option ℕ) → s.db ≡ c → s.db_init_promise ≡ p → IsSingle (begin c p s)
  begin-IsSingle (some c) p e f = h
  begin-IsSingle none (some p) e f = h
  begin-IsSingle none none e f = record {
    says = λ i lt. ground (arith, h.says i);
    bound = λ c q. cc;
    pending = λ p q. ground arith;
  }

  loads-IsSingle :
      (i : ℕ)
      → i < s.made
      → s.attempts i ≡ loading
      → IsSingle (record s { attempts = update s.attempts i preparing })
  loads-IsSingle i lt e = record {
    says = λ j below. ground (arith, h.says i, h.says j);
    bound = h.bound;
    pending = h.pending;
  }

  opens-IsSingle :
      (i : ℕ)
      → i < s.made
      → s.attempts i ≡ preparing
      → IsSingle (record s { db = some i; attempts = update s.attempts i (settled opened) })
  opens-IsSingle i lt e = record {
    says = λ j below. ground (arith, h.says i, h.says j);
    bound = λ c q. ground arith;
    pending = h.pending;
  }

  fails_loading-IsSingle :
      (i : ℕ)
      → i < s.made
      → s.attempts i ≡ loading
      → IsSingle (record s { attempts = update s.attempts i (settled unloaded) })
  fails_loading-IsSingle i lt e = record {
    says = λ j below. ground (arith, h.says i, h.says j);
    bound = h.bound;
    pending = h.pending;
  }

  fails_preparing-IsSingle :
      (i : ℕ)
      → i < s.made
      → s.attempts i ≡ preparing
      → IsSingle (record s { attempts = update s.attempts i (settled abandoned) })
  fails_preparing-IsSingle i lt e = record {
    says = λ j below. ground (arith, h.says i, h.says j);
    bound = h.bound;
    pending = h.pending;
  }

  cleans-IsSingle :
      (i : ℕ) (b : End)
      → i < s.made
      → s.attempts i ≡ settled b
      → IsSingle (record s { db_init_promise = none; attempts = update s.attempts i (over b) })
  cleans-IsSingle i b lt e = record {
    says = λ j below. ground (arith, h.says i, h.says j);
    bound = h.bound;
    pending = λ p q. cc;
  }

Turn-IsSingle : {s t : Shared} → Turn s t → IsSingle s → IsSingle t
Turn-IsSingle {s} begins h = begin-IsSingle s h s.db s.db_init_promise refl refl
Turn-IsSingle {s} (opens i lt e) h = opens-IsSingle s h i lt e
Turn-IsSingle {s} (loads i lt e) h = loads-IsSingle s h i lt e
Turn-IsSingle {s} (fails_loading i lt e) h = fails_loading-IsSingle s h i lt e
Turn-IsSingle {s} (fails_preparing i lt e) h = fails_preparing-IsSingle s h i lt e
Turn-IsSingle {s} (cleans i b lt e) h = cleans-IsSingle s h i b lt e

Reaches-IsSingle : {s : Shared} → Reaches unopened s → IsSingle s
Reaches-IsSingle here = record {
  says = λ i lt. absurd (omega arith);
  bound = λ c q. cc;
  pending = λ p q. cc;
}
Reaches-IsSingle (then r e) = Turn-IsSingle e (Reaches-IsSingle r)

-- However the calls of initVault and the steps of their openings interleave, and whether earlier
-- openings failed before Database.load or after it, at most one opening is under way or has succeeded.
pub connections-eq :
    {s : Shared} (i j : ℕ)
    → Reaches unopened s
    → i < s.made
    → j < s.made
    → IsLive (s.attempts i)
    → IsLive (s.attempts j)
    → i ≡ j
connections-eq {s} i j r lt below p q =
    let h = Reaches-IsSingle r in ground (arith, h.says i, h.says j)
