-- ===== src/Vault/Keyed.antt =====
-- vault.ts: the tables with one row for each key: ratchet sessions, the configuration and the
-- story keys.
use ep2pchat.Base.{◌≡◌, refl, ap, ite, String, Option, some, string_dec, false, true}
use ep2pchat.Base.Dict.{lookup, insert, lookup-insert}
use ep2pchat.Base.Exec.{ok, Exec, ◌>>◌}
use ep2pchat.Vault.Db.{
  Tables, Db, StoryKeyRow, execute, select, init_vault, next_fails, spent, later,
}
use ep2pchat.Vault.Init.{init_vault-opened}

unfoldable pub get_ratchet_session : String → Exec Db (Option String)
get_ratchet_session conversation_id = do
  init_vault
  select (λ t. lookup conversation_id t.ratchet_sessions)

abbrev pub put_session : String → String → Tables → Option Tables
put_session k v t = some (record t { ratchet_sessions = insert k v t.ratchet_sessions })

unfoldable pub save_ratchet_session : String → String → Exec Db (Unit {0})
save_ratchet_session conversation_id session_json = do
  init_vault
  execute (put_session conversation_id session_json)

unfoldable pub save_device_id : String → Exec Db (Unit {0})
save_device_id device_id = do
  init_vault
  execute (λ t. some (record t { user_config = insert "device_id" device_id t.user_config }))

unfoldable pub get_device_id : Exec Db (Option String)
get_device_id = do init_vault; select (λ t. lookup "device_id" t.user_config)

unfoldable pub save_story_key : String → String → String → Exec Db (Unit {0})
save_story_key user_id key_b64 nonce_b64 = do
  init_vault
  execute (λ t. some (record t {
    story_keys =
        insert user_id (record { story_key_b64 = key_b64; nonce_b64 = nonce_b64 }) t.story_keys;
  }))

unfoldable pub get_story_key : String → Exec Db (Option StoryKeyRow)
get_story_key user_id = do init_vault; select (λ t. lookup user_id t.story_keys)

pub save_ratchet_session-opened :
    (k v : String) (d : Db)
    → d.opened ≡ true
    → next_fails d.faults ≡ false
    → save_ratchet_session k v d ≡ (
      ok tt,
      record (spent d) {
        tables = record d.tables { ratchet_sessions = insert k v d.tables.ratchet_sessions };
      },
    )
unfolding save_ratchet_session execute
save_ratchet_session-opened k v d o f =
    rw (init_vault-opened d o, save_ratchet_session) (rw (f, execute) refl)

pub get_ratchet_session-opened :
    (j : String) (d : Db)
    → d.opened ≡ true
    → next_fails d.faults ≡ false
    → get_ratchet_session j d ≡ (ok (lookup j d.tables.ratchet_sessions), spent d)
unfolding get_ratchet_session select
get_ratchet_session-opened j d o f =
    rw (init_vault-opened d o, get_ratchet_session) (rw (f, select) refl)

-- On an open vault, what is read after a session was saved: that session under its conversation,
-- and under any other the one that was there. (`later` and `next_fails`: neither call fails.)
pub get-save_ratchet_session :
    (k j v : String) (d : Db)
    → d.opened ≡ true
    → next_fails d.faults ≡ false
    → next_fails (later d.faults) ≡ false
    → (get_ratchet_session j (save_ratchet_session k v d).1).0
      ≡ ok (ite (string_dec k j) (some v) (lookup j d.tables.ratchet_sessions))
get-save_ratchet_session k j v d o f g =
    let t = record d.tables { ratchet_sessions = insert k v d.tables.ratchet_sessions } in
    rw (save_ratchet_session-opened k v d o f) (
      rw (get_ratchet_session-opened j (record (spent d) { tables = t }) o g)
        (ap ok (lookup-insert k j v d.tables.ratchet_sessions)))
