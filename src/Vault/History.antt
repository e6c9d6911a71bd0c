-- ===== src/Vault/History.antt =====
-- vault.ts: `saveMessageEvent` and `getMessages`, which shows the messages of a contact with the
-- edits, deletions and reactions that the vault holds applied.
use Prim.Native.String.{compare}
use text.Mathlib.Text.{is_le}
use ep2pchat.Base.{
  ite, String, Bool, true, false, Option, none, some, List, [], ◌∷◌, ◌++◌, string_dec,
  if◌then◌else◌, or_else, keep_if, map, ◌||◌, ◌&&◌, any_if,
}
use ep2pchat.Base.Exec.{Exec, pure, ◌>>=◌, ◌>>◌}
use ep2pchat.Base.Codec.{Json}
use ep2pchat.Vault.Db.{Tables, Db, MessageRow, EventRow, execute, select, init_vault}
use ep2pchat.Vault.Messages.{str_eq, sql_eq}

-- ORDER BY timestamp ASC; rows of the same timestamp keep the order of the table.
module _ {A : Type 0} (timestamp : A → String) where
  unfoldable pub place : A → List A → List A
  place a [] = a ∷ []
  place a (b ∷ bs) =
      if is_le (compare (timestamp a) (timestamp b)) then a ∷ b ∷ bs else b ∷ place a bs

  unfoldable pub order_by : List A → List A
  order_by [] = []
  order_by (a ∷ as_) = place a (order_by as_)

-- What the client shows of a message, as `getMessages` returns it and the chat keeps it.
pub record Shown (V : Type 0) : Type 0 where
  pub id : String
  pub sender : String
  pub text : Option String
  pub timestamp : String
  pub is_me : Bool
  pub status : String
  pub parent_id : Option String
  pub reactions : List (Option String)
  pub is_deleted : Bool
  pub is_edited : Bool
  pub metadata : V

abbrev pub deleted_text : Option String
deleted_text = some "This message was deleted"

-- WHERE conversation_id = ? OR sender_id = ? OR recipient_id = ?
abbrev pub of_contact : String → MessageRow → Bool
of_contact contact m =
    sql_eq m.conversation_id contact || str_eq m.sender_id contact || sql_eq m.recipient_id contact

-- The INSERT, whose id must be new.
unfoldable pub insert_event : EventRow → Tables → Option Tables
insert_event e t =
    if any_if (λ f. str_eq f.id e.id) t.message_events
    then none
    else some (record t { message_events = t.message_events ++ e ∷ [] })

-- FROM message_events e JOIN messages m ON e.target_msg_id = m.id
unfoldable pub join_events : (MessageRow → Bool) → List MessageRow → List EventRow → List EventRow
join_events shown ms [] = []
join_events shown ms (e ∷ es) =
    map (λ _. e) (keep_if (λ m. sql_eq e.target_msg_id m.id && shown m) ms)
    ++ join_events shown ms es

module _ (json : Json) where
  open json use {Value, parse, stringify, field, empty}

  -- The parameter of `saveMessageEvent`.
  pub record NewEvent : Type 0 where
    pub id : String
    pub target_msg_id : Option String
    pub event_type : String
    pub payload : Value

  abbrev pub event_row : String → NewEvent → EventRow
  event_row now ev = record {
    id = ev.id;
    target_msg_id = ev.target_msg_id;
    event_type = ev.event_type;
    payload = stringify ev.payload;
    timestamp = now;
  }

  unfoldable pub save_message_event : NewEvent → Exec Db (Unit {0})
  save_message_event ev d = (do init_vault; execute (insert_event (event_row d.now ev))) d

  -- `let x = {}; try { x = JSON.parse(s) } catch {}`
  abbrev pub parse_or_empty : String → Value
  parse_or_empty s = or_else (parse s) empty

  abbrev parse_metadata : Option String → Value
  parse_metadata none = empty
  parse_metadata (some s) = elim (string_dec s "") [ yes _ ↦ empty | no _ ↦ parse_or_empty s ]

  abbrev pub shown_row : MessageRow → Shown Value
  shown_row m = record {
    id = m.id;
    sender = m.sender_id;
    text = m.content;
    timestamp = m.timestamp;
    is_me = m.is_me;
    status = m.message_status;
    parent_id = m.parent_id;
    reactions = [];
    is_deleted = false;
    is_edited = false;
    metadata = parse_metadata m.metadata;
  }

  -- The body of the loop over the events of a message.
  unfoldable pub apply_event : String → Value → Shown Value → Shown Value
  apply_event kind payload m =
      ite (string_dec kind "edit") (record m { text = field payload "body"; is_edited = true })
        (ite (string_dec kind "delete") (record m { is_deleted = true; text = deleted_text })
          (ite (string_dec kind "reaction")
            (record m { reactions = m.reactions ++ field payload "emoji" ∷ [] }) m))

  unfoldable pub apply_events : List EventRow → Shown Value → Shown Value
  apply_events [] m = m
  apply_events (e ∷ es) m = apply_events es (apply_event e.event_type (parse_or_empty e.payload) m)

  unfoldable pub resolve : List EventRow → MessageRow → Shown Value
  resolve events m = apply_events (keep_if (λ e. sql_eq e.target_msg_id m.id) events) (shown_row m)

  unfoldable pub get_messages : String → Exec Db (List (Shown Value))
  get_messages contact = do
    init_vault
    base ← select (λ t. order_by (λ m. m.timestamp) (keep_if (of_contact contact) t.messages))
    events ← select (λ t.
        order_by (λ e. e.timestamp) (join_events (of_contact contact) t.messages t.message_events))
    pure (map (resolve events) base)

-- SELECT * FROM messages ORDER BY timestamp ASC
pub export_vault_data : Exec Db (List MessageRow)
export_vault_data = do init_vault; select (λ t. order_by (λ m. m.timestamp) t.messages)
