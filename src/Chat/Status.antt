-- ===== src/Chat/Status.antt =====
-- useChat.ts: a status report for a message that was confirmed before.
use ep2pchat.Base.{
  ◌≡◌, refl, ◌≢◌, String, true, false, Option, some, List, [], ◌∷◌, arith, truthy, All,
}
use ep2pchat.Base.Dict.{insert}
use ep2pchat.Base.Codec.{Json, Base64}
use ep2pchat.Vault.Db.{Db, MessageRow, next_fails, spent, execute, init_vault}
use ep2pchat.Vault.Messages.{
  set_status, confirm_rows, ids_distinct, update_message_status, reconcile_temp_message_id,
  reconcile_rows,
}
use ep2pchat.Orchestration.{Ratchet}
use ep2pchat.Chat.{Client}
use ep2pchat.Chat.Reports.{
  resolve_local_message_id, next_status, handle_message_status, handle_message_confirm,
}

-- No row keeps the temporary id.
set_status-confirm_rows :
    (temp server status : String) (timestamp : Option String) (ms : List MessageRow)
    → temp ≢ server
    → set_status temp status (confirm_rows temp server timestamp ms)
      ≡ confirm_rows temp server timestamp ms
unfolding set_status confirm_rows
set_status-confirm_rows temp server status ts [] n = refl
set_status-confirm_rows temp server status ts (m ∷ ms) n =
    ground (arith, set_status-confirm_rows temp server status ts ms n)

-- A new temporary id is the one that the server's id stands for, if that had none.
resolve-insert :
    (temp server : String) (m : List (String × String))
    → All (λ p. p.1 ≢ server) m
    → resolve_local_message_id (insert temp server m) server ≡ temp
unfolding resolve_local_message_id insert
resolve-insert temp server [] h = ground arith
resolve-insert temp server ((t, s) ∷ m) (n, h) = ground (arith, resolve-insert temp server m h)

open_update :
    (id status : String) (d : Db)
    → d.opened ≡ true
    → set_status id status d.tables.messages ≡ d.tables.messages
    → (update_message_status id status d).1.tables.messages ≡ d.tables.messages
unfolding update_message_status init_vault execute
open_update id status d o h = ground (arith, h)

reconciled : String → String → Option String → Db → Db
reconciled temp server timestamp d = record (spent d) {
  tables = record d.tables { messages = confirm_rows temp server timestamp d.tables.messages };
}

open_reconcile :
    (temp server : String) (timestamp : Option String) (d : Db)
    → d.opened ≡ true
    → next_fails d.faults ≡ false
    → ids_distinct (confirm_rows temp server timestamp d.tables.messages) ≡ true
    → (reconcile_temp_message_id temp server timestamp d).1 ≡ reconciled temp server timestamp d
unfolding reconcile_temp_message_id reconcile_rows init_vault execute reconciled
open_reconcile temp server timestamp d o f i = ground arith

module _ (json : Json) (b64 : Base64) (native : Ratchet) where
  -- After a message was confirmed under a new id, a status report for that id leaves the rows of the
  -- vault as they are: the report is looked up under the temporary id, which no row has any more.
  -- This is of an open vault, two different ids that are not empty, no id that had this server id
  -- before, a confirmation that the database does not fail and that leaves no id twice.
  pub status-confirm :
      (temp server status : String) (timestamp : Option String) (c : Client json b64 native)
      → temp ≢ server
      → truthy temp ≡ true
      → truthy server ≡ true
      → c.db.opened ≡ true
      → next_fails c.db.faults ≡ false
      → ids_distinct (confirm_rows temp server timestamp c.db.tables.messages) ≡ true
      → All (λ p. p.1 ≢ server) c.temp_to_server_id
      → let d = handle_message_confirm json b64 native (some temp) (some server) timestamp c in
        (handle_message_status json b64 native server status d).db.tables.messages
        ≡ d.db.tables.messages
  unfolding handle_message_confirm handle_message_status reconciled
  status-confirm temp server status timestamp c n t s o f i m =
      rw (t, s)
        (rw
          (
            resolve-insert temp server c.temp_to_server_id m,
            open_reconcile temp server timestamp c.db o f i,
          )
          (open_update temp (next_status status) (reconciled temp server timestamp c.db) o (
            set_status-confirm_rows temp server (next_status status) timestamp c.db.tables.messages
              n)))
