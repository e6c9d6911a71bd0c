-- ===== src/Vault/Working.antt =====
-- vault.ts: what the operations of a message do on a vault that is open and whose calls do not fail.
use ep2pchat.Base.{some, ◌≡◌, ap, ◌∙◌, String, true, false, List, [], arith}
use ep2pchat.Base.Dict.{insert, lookup}
use ep2pchat.Base.Exec.{ok}
use ep2pchat.Base.Codec.{Json}
use ep2pchat.Vault.Db.{Tables, Db, MessageRow, execute, select, next_fails, spent}
use ep2pchat.Vault.Init.{init_vault-opened}
use ep2pchat.Vault.Messages.{NewMessage, upsert_message, row_of, save_message}
use ep2pchat.Vault.Keyed.{
  get_ratchet_session, save_ratchet_session, save_ratchet_session-opened,
  get_ratchet_session-opened,
}

pub record IsWorking (d : Db) : Type 0 where
  pub opened : d.opened ≡ true
  pub faults : d.faults ≡ []

abbrev pub put_row : (List MessageRow → List MessageRow) → Db → Db
put_row f d = record d { tables = record d.tables { messages = f d.tables.messages } }

abbrev pub put_session_row : String → String → Db → Db
put_session_row k v d = record d {
  tables = record d.tables { ratchet_sessions = insert k v d.tables.ratchet_sessions };
}

module _ (d : Db) (w : IsWorking d) where
  spent-working : spent d ≡ d
  spent-working = ground arith

  next-working : next_fails d.faults ≡ false
  next-working = ap next_fails w.faults

  pub get_ratchet_session-working :
      (j : String) → get_ratchet_session j d ≡ (ok (lookup j d.tables.ratchet_sessions), d)
  get_ratchet_session-working j =
      get_ratchet_session-opened j d w.opened next-working
      ∙ ap (λ (e : Db). (ok (lookup j d.tables.ratchet_sessions), e)) spent-working

  pub save_ratchet_session-working :
      (k v : String) → save_ratchet_session k v d ≡ (ok tt, put_session_row k v d)
  save_ratchet_session-working k v =
      save_ratchet_session-opened k v d w.opened next-working
      ∙ ap
          (λ (e : Db). (
            ok tt,
            record e {
              tables = record d.tables { ratchet_sessions = insert k v d.tables.ratchet_sessions };
            },
          ))
          spent-working

  pub execute-working :
      (f : Tables → Tables)
      → execute (λ t. some (f t)) d ≡ (ok tt, record d { tables = f d.tables })
  unfolding execute
  execute-working f =
      rw next-working (ap (λ (e : Db). (ok tt, record e { tables = f d.tables })) spent-working)

  pub select-working : {A : Type 0} (f : Tables → A) → select f d ≡ (ok (f d.tables), d)
  unfolding select
  select-working f = rw next-working (ap (λ (e : Db). (ok (f d.tables), e)) spent-working)

  pub save_message-working :
      (json : Json) (m : NewMessage json)
      → save_message json m d ≡ (ok tt, put_row (upsert_message (row_of json d.now m)) d)
  unfolding save_message
  save_message-working json m = rw (init_vault-opened d w.opened) (
      execute-working
        (λ t. record t { messages = upsert_message (row_of json d.now m) t.messages }))
