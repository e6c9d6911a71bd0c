-- ===== src/Chat/Reports.antt =====
-- useChat.ts: the handlers of status reports, confirmations, typing events and story keys.
use ep2pchat.Base.{
  ite, String, Bool, Option, none, some, List, [], ◌∷◌, map, string_dec, if◌then◌else◌, or_text,
  or_else, truthy, ◌||◌, ◌&&◌,
}
use ep2pchat.Base.Dict.{insert}
use ep2pchat.Base.Exec.{Result, ok, err}
use ep2pchat.Base.Codec.{Json, Base64}
use ep2pchat.Vault.Db.{Db}
use ep2pchat.Vault.Messages.{str_eq, sql_eq, update_message_status, reconcile_temp_message_id}
use ep2pchat.Vault.History.{Shown}
use ep2pchat.Vault.Keyed.{save_story_key}
use ep2pchat.Orchestration.{LocalKeys, Ratchet, Incoming, Decrypted, process_incoming_message}
use ep2pchat.Chat.{Client}

-- The first temporary id that is mapped to the server's id, or else that id.
unfoldable pub resolve_local_message_id : List (String × String) → String → String
resolve_local_message_id [] server = server
resolve_local_message_id ((temp, s) ∷ m) server =
    ite (string_dec s server) temp (resolve_local_message_id m server)

abbrev pub next_status : String → String
next_status status = if str_eq status "read" then "read" else "delivered"

module _ (json : Json) (b64 : Base64) (native : Ratchet) where
  open json use {Value, parse, field}

  -- `try { … } catch {}`: the vault as the operation left it.
  unfoldable pub handle_message_status :
      String → String → Client json b64 native → Client json b64 native
  handle_message_status message status c =
      let local = resolve_local_message_id c.temp_to_server_id message in
      record c {
        db = (update_message_status local (next_status status) c.db).1;
        messages =
            map
              (λ (m : Shown Value).
                if str_eq m.id local || str_eq m.id message
                then record m { status = next_status status }
                else m)
              c.messages;
      }

  abbrev confirm_shown : String → String → Option String → Shown Value → Shown Value
  confirm_shown temp server timestamp m =
      if str_eq m.id temp
      then record m {
        id = server;
        timestamp = or_else (or_text timestamp none) m.timestamp;
        status = "sent";
      }
      else m

  abbrev pub confirm_with :
      Option String
      → Option String
      → Option String
      → Client json b64 native
      → Client json b64 native
  confirm_with none server timestamp c = c
  confirm_with (some temp) none timestamp c = c
  confirm_with (some temp) (some server) timestamp c =
      if truthy temp && truthy server
      then record c {
        temp_to_server_id = insert temp server c.temp_to_server_id;
        db = (reconcile_temp_message_id temp server timestamp c.db).1;
        messages = map (confirm_shown temp server timestamp) c.messages;
      }
      else c

  unfoldable pub handle_message_confirm :
      Option String
      → Option String
      → Option String
      → Client json b64 native
      → Client json b64 native
  handle_message_confirm temp_id server_message_id timestamp c =
      confirm_with temp_id server_message_id timestamp c

  unfoldable pub handle_typing_event :
      Option String → Bool → Client json b64 native → Client json b64 native
  handle_typing_event none is_typing c = c
  handle_typing_event (some sender) is_typing c =
      if truthy sender
      then record c { typing_by_contact = insert sender is_typing c.typing_by_contact }
      else c

  abbrev pub keyed_story : String → Client json b64 native → Option Value → Client json b64 native
  keyed_story sender c none = c
  keyed_story sender c (some v) =
      if sql_eq (field v "type") "STORY_KEY"
      then record c {
        db =
            (save_story_key sender (or_else (field v "key") "") (or_else (field v "nonce") "")
              c.db).1;
      }
      else c

  abbrev pub shared_story :
      Incoming b64 native
      → Client json b64 native
      → Result (Option (Decrypted b64 native)) × Db
      → Client json b64 native
  shared_story payload c (ok (some r), d) =
      keyed_story (or_else payload.sender_user_id "") (record c { db = d }) (parse r.plaintext)
  shared_story payload c (ok none, d) = record c { db = d }
  shared_story payload c (err x, d) = record c { db = d }

  abbrev pub story_with :
      Incoming b64 native → Option LocalKeys → Client json b64 native → Client json b64 native
  story_with payload none c = c
  story_with payload (some keys) c =
      shared_story payload c
        (process_incoming_message b64 native payload keys payload.sender_user_id c.db)

  unfoldable pub handle_story_key_share :
      Incoming b64 native → Client json b64 native → Client json b64 native
  handle_story_key_share payload c = story_with payload c.local_keys c
