-- ===== src/Vault/Db.antt =====
-- vault.ts: the connection that `initVault` opens, the tables of its schema, and the statements of
-- the operations. A SQL statement is a function on the tables, `none` where it breaks a UNIQUE
-- constraint; `faults` says of each statement to come whether the database fails it (those past the
-- end of the list succeed). One connection, so a statement runs in the transaction that is open.
use ep2pchat.Base.{
  ℕ, zero, suc, String, Bool, true, false, Option, none, some, List, [], ◌∷◌, if◌then◌else◌,
  truthy?, or_else, text_append,
}
use ep2pchat.Base.Exec.{Result, ok, err, Exec, pure, throw, catch, ◌>>◌}

pub record LocalKeyRow : Type 0 where
  pub identity_public : String
  pub identity_secret : String
  pub signed_pre_key_public : String
  pub signed_pre_key_secret : String
  pub signed_pre_key_signature : String
  pub is_active : Bool

pub record MessageRow : Type 0 where
  pub id : String
  pub temp_id : Option String
  pub conversation_id : Option String
  pub sender_id : String
  pub recipient_id : Option String
  pub parent_id : Option String
  pub content : Option String
  pub metadata : Option String
  pub timestamp : String
  pub is_me : Bool
  pub message_status : String

pub record EventRow : Type 0 where
  pub id : String
  pub target_msg_id : Option String
  pub event_type : String
  pub payload : String
  pub timestamp : String

pub record OtpkRow : Type 0 where
  pub key_id : String
  pub private_key_b64 : String
  pub created_at : String
  pub consumed : Bool
  pub consumed_at : Option String

pub record StoryKeyRow : Type 0 where
  pub story_key_b64 : String
  pub nonce_b64 : String

-- The rows of each table in the order of insertion.
pub record Tables : Type 0 where
  pub local_keys : List LocalKeyRow
  pub messages : List MessageRow
  pub message_events : List EventRow
  pub user_config : List (String × String)
  pub ratchet_sessions : List (String × String)
  pub otpk_private_keys : List OtpkRow
  pub story_keys : List (String × StoryKeyRow)

abbrev pub no_rows : Tables
no_rows = record {
  local_keys = [];
  messages = [];
  message_events = [];
  user_config = [];
  ratchet_sessions = [];
  otpk_private_keys = [];
  story_keys = [];
}

pub record Db : Type 0 where
  pub opened : Bool
  pub cached_secret : Option String
  pub tables : Tables
  -- the tables at the BEGIN of the transaction that is open
  pub saved : Option Tables
  -- what is to come: does the next call of the database or the keychain fail, the one after, …
  pub faults : List Bool
  -- the key that the keychain returns
  pub keychain : String
  -- does the search index count no rows
  pub fts_empty : Bool
  -- CURRENT_TIMESTAMP and `new Date().toISOString()`
  pub now : String

abbrev pub next_fails : List Bool → Bool
next_fails [] = false
next_fails (b ∷ fs) = b

abbrev pub later : List Bool → List Bool
later [] = []
later (b ∷ fs) = fs

abbrev pub spent : Db → Db
spent d = record d { faults = later d.faults }

abbrev finish : Option Tables → Db → Result (Unit {0}) × Db
finish none d = (err "UNIQUE constraint failed", d)
finish (some t) d = (ok tt, record d { tables = t })

-- `vault.execute` of a statement that changes rows.
unfoldable pub execute : (Tables → Option Tables) → Exec Db (Unit {0})
execute f d =
    if next_fails d.faults then (err "database error", spent d) else finish (f d.tables) (spent d)

-- `vault.select`.
unfoldable pub select : {A : Type 0} → (Tables → A) → Exec Db A
select f d =
    if next_fails d.faults then (err "database error", spent d) else (ok (f d.tables), spent d)

-- A call that changes no row: the keychain, `Database.load`, a PRAGMA, the schema's statements.
unfoldable pub touch : Exec Db (Unit {0})
touch d = if next_fails d.faults then (err "database error", spent d) else (ok tt, spent d)

-- `execute("BEGIN")`, which fails inside a transaction; COMMIT and ROLLBACK fail outside one.
unfoldable pub begin_transaction : Exec Db (Unit {0})
begin_transaction d =
    if next_fails d.faults then (err "database error", spent d) else elim d.saved [
      | none ↦ (ok tt, record (spent d) { saved = some d.tables })
      | some t ↦ (err "cannot start a transaction within a transaction", spent d)
    ]

unfoldable pub commit : Exec Db (Unit {0})
commit d = if next_fails d.faults then (err "database error", spent d) else elim d.saved [
  | none ↦ (err "cannot commit - no transaction is active", spent d)
  | some t ↦ (ok tt, record (spent d) { saved = none })
]

unfoldable pub rollback : Exec Db (Unit {0})
rollback d = if next_fails d.faults then (err "database error", spent d) else elim d.saved [
  | none ↦ (err "cannot rollback - no transaction is active", spent d)
  | some t ↦ (ok tt, record (spent d) { tables = t; saved = none })
]

unfoldable pub get_vault_passphrase : Exec Db String
get_vault_passphrase d =
    if truthy? d.cached_secret
    then (ok (or_else d.cached_secret ""), d)
    else (do touch; λ e. (ok d.keychain, record e { cached_secret = some d.keychain })) d

unfoldable pub touches : ℕ → Exec Db (Unit {0})
touches zero = pure tt
touches (suc n) = touch >> touches n

-- `try { await … } catch {}`
unfoldable pub attempted : Exec Db (Unit {0}) → Exec Db (Unit {0})
attempted m = catch m (λ _. pure tt)

-- The two statements that set the key and the page size, five PRAGMAs and the test read.
unfoldable pub unlock : Exec Db (Unit {0})
unlock = catch (touches 8) (λ e. throw (text_append "[vault] Vault decrypt failed: " e))

-- The index is filled where it counts no rows.
unfoldable pub backfill : Exec Db (Unit {0})
backfill = do touch; λ d. if d.fts_empty then touch d else (ok tt, d)

-- The columns added to older tables, and the backfill of the search index.
unfoldable pub migrate : Exec Db (Unit {0})
migrate = do
  attempted touch
  attempted touch
  attempted touch
  attempted touch
  attempted touch
  attempted backfill

unfoldable pub mark_opened : Exec Db (Unit {0})
mark_opened d = (ok tt, record d { opened = true })

unfoldable pub unlock_keychain : Exec Db String
unlock_keychain =
    catch get_vault_passphrase (λ e. throw (text_append "[vault] Keychain access failed: " e))

unfoldable pub open_vault : Exec Db (Unit {0})
open_vault = do unlock_keychain; touch; unlock; touches 11; migrate; mark_opened

unfoldable pub init_vault : Exec Db (Unit {0})
init_vault d = if d.opened then (ok tt, d) else open_vault d
