-- ===== src/Vault/Messages.antt =====
-- vault.ts: the messages, `saveMessage`, `reconcileTempMessageId`, `updateMessageStatus`,
-- `importVaultData` and `exportVaultData`.
use ep2pchat.Base.{
  ite, String, Bool, true, false, Option, none, some, List, [], ◌∷◌, string_dec, if◌then◌else◌,
  or_text, or_else, truthy, any_if, ◌||◌,
}
use ep2pchat.Base.Exec.{Exec, pure, throw, ◌>>=◌, ◌>>◌}
use ep2pchat.Base.Codec.{Json}
use ep2pchat.Vault.Db.{Tables, Db, MessageRow, execute, init_vault}
use ep2pchat.Vault.Transaction.{transaction}

abbrev pub str_eq : String → String → Bool
str_eq s t = elim (string_dec s t) [ yes _ ↦ true | no _ ↦ false ]

-- SQL's `column = ?` is false of a NULL.
abbrev pub sql_eq : Option String → String → Bool
sql_eq none t = false
sql_eq (some s) t = str_eq s t

abbrev pub with_messages : (List MessageRow → List MessageRow) → Tables → Option Tables
with_messages f t = some (record t { messages = f t.messages })

-- COALESCE(a, b)
abbrev pub coalesce : Option String → Option String → Option String
coalesce none b = b
coalesce (some a) b = some a

-- INSERT … ON CONFLICT(id) DO UPDATE SET message_status, content, metadata
unfoldable pub upsert_message : MessageRow → List MessageRow → List MessageRow
upsert_message r [] = r ∷ []
upsert_message r (m ∷ ms) =
    ite (string_dec m.id r.id)
      (record m {
        message_status = r.message_status;
        content = coalesce r.content m.content;
        metadata = coalesce r.metadata m.metadata;
      }
        ∷ ms)
      (m ∷ upsert_message r ms)

-- UPDATE … SET message_status = ? WHERE id = ?
unfoldable pub set_status : String → String → List MessageRow → List MessageRow
set_status id status [] = []
set_status id status (m ∷ ms) =
    ite (string_dec m.id id) (record m { message_status = status }) m ∷ set_status id status ms

unfoldable pub update_message_status : String → String → Exec Db (Unit {0})
update_message_status message_id status = do
  init_vault
  execute (with_messages (set_status message_id status))

-- WHERE id = ? OR temp_id = ?
abbrev pub is_temp : String → MessageRow → Bool
is_temp temp m = str_eq m.id temp || sql_eq m.temp_id temp

abbrev pub confirmed : String → String → Option String → MessageRow → MessageRow
confirmed temp server timestamp m = record m {
  id = server;
  temp_id = some temp;
  message_status = "sent";
  timestamp = or_else timestamp m.timestamp;
}

unfoldable pub confirm_rows : String → String → Option String → List MessageRow → List MessageRow
confirm_rows temp server timestamp [] = []
confirm_rows temp server timestamp (m ∷ ms) =
    (if is_temp temp m then confirmed temp server timestamp m else m)
    ∷ confirm_rows temp server timestamp ms

-- The PRIMARY KEY: no id twice.
abbrev pub ids_distinct : List MessageRow → Bool
ids_distinct [] = true
ids_distinct (m ∷ ms) = if any_if (λ n. str_eq n.id m.id) ms then false else ids_distinct ms

abbrev pub if_distinct : Tables → Option Tables
if_distinct t = if ids_distinct t.messages then some t else none

-- The statement fails, and changes nothing, if it would give an id to two rows.
unfoldable pub reconcile_rows : String → String → Option String → Tables → Option Tables
reconcile_rows temp server timestamp t =
    if_distinct (record t { messages = confirm_rows temp server timestamp t.messages })

unfoldable pub reconcile_temp_message_id : String → String → Option String → Exec Db (Unit {0})
reconcile_temp_message_id temp_id server_message_id timestamp = do
  init_vault
  execute (reconcile_rows temp_id server_message_id timestamp)

module _ (json : Json) where
  open json use {Value, parse, stringify}

  -- The parameter of `saveMessage`; a metadata that is falsy is `none`.
  pub record NewMessage : Type 0 where
    pub id : String
    pub temp_id : Option String
    pub sender : String
    pub text : Option String
    pub is_me : Bool
    pub conversation_id : Option String
    pub recipient_id : Option String
    pub timestamp : Option String
    pub message_status : Option String
    pub parent_id : Option String
    pub metadata : Option Value

  abbrev stringified : Option Value → Option String
  stringified none = none
  stringified (some v) = some (stringify v)

  unfoldable pub row_of : String → NewMessage → MessageRow
  row_of now msg = record {
    id = msg.id;
    temp_id = msg.temp_id;
    conversation_id = msg.conversation_id;
    sender_id = msg.sender;
    recipient_id = msg.recipient_id;
    parent_id = or_text msg.parent_id none;
    content = msg.text;
    metadata = stringified msg.metadata;
    timestamp = or_else msg.timestamp now;
    is_me = msg.is_me;
    message_status = or_else msg.message_status (if msg.is_me then "sent" else "received");
  }

  unfoldable pub save_message : NewMessage → Exec Db (Unit {0})
  save_message msg d =
      (do init_vault; execute (with_messages (upsert_message (row_of d.now msg)))) d

  -- `m.metadata ? JSON.parse(m.metadata) : null`, of a text; JSON.parse may throw.
  parsed : Option String → Exec Db (Option Value)
  parsed none = pure none
  parsed (some s) =
      if truthy s
      then elim (parse s) [ none ↦ throw "SyntaxError" | some v ↦ pure (some v) ]
      else pure none

  import_row : MessageRow → Exec Db (Unit {0})
  import_row m = do
    metadata ← parsed m.metadata
    save_message (record {
      id = m.id;
      temp_id = m.temp_id;
      sender = m.sender_id;
      text = m.content;
      is_me = m.is_me;
      conversation_id = m.conversation_id;
      recipient_id = m.recipient_id;
      timestamp = some m.timestamp;
      message_status = some m.message_status;
      parent_id = m.parent_id;
      metadata = metadata;
    })

  pub import_rows : List MessageRow → Exec Db (Unit {0})
  import_rows [] = pure tt
  import_rows (m ∷ ms) = import_row m >> import_rows ms

  pub import_vault_data : List MessageRow → Exec Db (Unit {0})
  import_vault_data rows = do init_vault; transaction (import_rows rows)
