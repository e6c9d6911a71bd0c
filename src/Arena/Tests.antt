-- ===== src/Arena/Tests.antt =====
-- The theorems on the composer at concrete inputs.
use ep2pchat.Base.{
  ◌≡◌, ◌≢◌, refl, String, true, false, none, some, [], ◌∷◌, if_pos, string_dec, arith, List,
}
use ep2pchat.Base.Dict.{lookup}
use ep2pchat.Samples.{toy_b64, toy_json, toy_ratchet, own_keys}
use ep2pchat.Toasts.{no_toasts}
use ep2pchat.Vault.Db.{Db, no_rows}
use ep2pchat.Vault.History.{Shown}
use ep2pchat.Vault.Messages.{str_eq}
use ep2pchat.Vault.Tests.{open_db}
use ep2pchat.Chat.{Client}
use ep2pchat.Chat.Tests.{client}
use ep2pchat.Arena.{Arena, Peer, TargetDevice}
use ep2pchat.Arena.Composer.{start_edit, type_texts}
use ep2pchat.Arena.Editing.{start_edit-type_texts}
use ep2pchat.Arena.Relay.{Origin}
use ep2pchat.Arena.Samples.{toy_sealing}
use ep2pchat.Arena.Talk.{Post, CanPost, CanReceive}
use ep2pchat.Arena.Conversation.{IsUnheard, posts-IsUnheard}

abbrev device : TargetDevice
device = record {
  device_id = "bob's phone";
  identity_key = "ik";
  signed_pre_key = "spk";
  one_time_pre_key = none;
}

abbrev peer : String → Peer
peer id = record { id = id; devices = device ∷ [] }

abbrev session_db : String → Db
session_db id = record open_db { tables = record no_rows { ratchet_sessions = (id, "s") ∷ [] } }

abbrev arena : String → Arena toy_json toy_b64 toy_ratchet
arena id = record {
  client = record client { db = session_db id };
  active_contact = some (peer id);
  input_text = "hello";
  reply_to = none;
  editing_msg = none;
  toasts = no_toasts;
  typing_timeout = none;
}

-- The server's name for the sender.
abbrev origin : String → Origin
origin user = record {
  message_id = "m9";
  user_id = user;
  device_id = "alice's phone";
  identity_key = "ik";
  created_at = "2026-01-04";
}

abbrev receiver : Client toy_json toy_b64 toy_ratchet
receiver = record client { db = session_db "alice" }

stored_for : (id : String) → lookup id (session_db id).tables.ratchet_sessions ≡ some "s"
unfolding lookup
stored_for id = if_pos (string_dec id id) refl _ _

ne_of_test : (s t : String) → str_eq s t ≡ false → s ≢ t
ne_of_test s t h = ground arith

abbrev arena-CanPost : CanPost toy_json toy_b64 toy_ratchet toy_sealing (peer "bob") (arena "bob")
unfolding string_dec
arena-CanPost = record {
  vault = record { opened = refl; faults = refl };
  chosen = refl;
  fresh = refl;
  keys = own_keys;
  keyed = refl;
  session = "s";
  stored = stored_for "bob";
  live = refl;
}

abbrev receiver-CanReceive : CanReceive toy_json toy_b64 toy_ratchet (origin "alice") receiver
unfolding string_dec
receiver-CanReceive = record {
  vault = record { opened = refl; faults = refl };
  keys = own_keys;
  keyed = refl;
  named = refl;
  held = "s";
  stored = stored_for "alice";
  usable = refl;
}

abbrev two_posts : List Post
two_posts =
    record {
      text = "hello";
      stamp = "1";
      iso = "2026-01-03";
      message_id = "m8";
      created_at = "2026-01-03";
    }
    ∷ record {
      text = "again";
      stamp = "2";
      iso = "2026-01-04";
      message_id = "m9";
      created_at = "2026-01-04";
    }
    ∷ []

bob≢alice : ◌≢◌ {A = String} "bob" "alice"
unfolding string_dec
bob≢alice = ne_of_test "bob" "alice" refl

posts-IsUnheard_example :
    IsUnheard toy_json toy_b64 toy_ratchet device (origin "alice") two_posts (arena "bob") receiver
posts-IsUnheard_example =
    posts-IsUnheard toy_json toy_b64 toy_ratchet toy_sealing (peer "bob") device (origin "alice")
      two_posts (arena "bob") receiver bob≢alice refl (refl, (refl, tt)) arena-CanPost
      receiver-CanReceive

abbrev old : Shown toy_json.Value
old = record {
  id = "m1";
  sender = "me";
  text = some "old";
  timestamp = "2026-01-01";
  is_me = true;
  status = "sent";
  parent_id = none;
  reactions = [];
  is_deleted = false;
  is_edited = false;
  metadata = "";
}

start_edit-type_texts_example :
    (type_texts toy_json toy_b64 toy_ratchet
      ("oldd" ∷ "new" ∷ [])
      (start_edit toy_json toy_b64 toy_ratchet old (arena "bob"))).input_text
    ≡ "old"
start_edit-type_texts_example =
    start_edit-type_texts toy_json toy_b64 toy_ratchet old ("oldd" ∷ "new" ∷ []) (arena "bob")
