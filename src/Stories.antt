-- ===== src/Stories.antt =====
-- apps/desktop/src/features/stories/useStoryWorkflows.ts: posting a story and sharing its key. What
-- the native cipher and the server answer is an argument, and so is the new key. The contacts'
-- shares run at the same time there; here each one runs to its end before the next.
pub mod Unshared
pub mod Viewer
pub mod Tests
use ep2pchat.Base.{
  String, Bool, true, false, Option, none, some, List, [], ◌∷◌, head?, if◌then◌else◌, or_else,
  truthy?, text_append, is_blank,
}
use ep2pchat.Base.Exec.{Result, ok, err, Exec, pure, throw, ◌>>=◌, ◌>>◌}
use ep2pchat.Base.Codec.{Json, Base64}
use ep2pchat.Socket.{send}
use ep2pchat.Wire.{Outgoing, story_key}
use ep2pchat.Vault.Db.{Db}
use ep2pchat.Vault.Keyed.{get_ratchet_session}
use ep2pchat.Orchestration.{Ratchet, Sealed}
use ep2pchat.Chat.{Client}
use ep2pchat.Arena.{Peer, TargetDevice}
use ep2pchat.Stores.{SessionState}
use ep2pchat.Toasts.{Toasts, ToastVariant, success, error, add_toast}
use ep2pchat.Workflows.{Answer, loaded, failed}

-- The arguments of a command that the workflow names; a command has none of the others.
pub record EncryptArguments : Type 0 where
  pub session_json : String
  pub plaintext : String
  pub conv_id : Option String

-- The promises of all contacts: every one runs, and the first that rejects is what is thrown.
abbrev pub also : {S : Type 0} → Result (Unit {0}) × S → Exec S (Unit {0}) → Result (Unit {0}) × S
also (ok _, s) m = m s
also (err e, s) m = (err e, (m s).1)

module _ (json : Json) (b64 : Base64) (native : Ratchet) where
  open json use {Value, stringify, object}
  open native use {Header, ratchet_encrypt}

  abbrev read_at :
      {A : Type 0} → Result A × Db → Client json b64 native → Result A × Client json b64 native
  read_at (r, d) c = (r, record c { db = d })

  -- An operation of the vault.
  abbrev pub reading : {A : Type 0} → Exec Db A → Exec (Client json b64 native) A
  reading m c = read_at (m c.db) c

  -- The native side rejects a call that lacks an argument of the command.
  abbrev pub called :
      Option String → String → String → Exec (Client json b64 native) (Sealed Header)
  called none session text = throw "command ratchet_encrypt missing required key convId"
  called (some conv) session text = elim (ratchet_encrypt session text conv) [
    | none ↦ throw "command failed"
    | some r ↦ pure r
  ]

  abbrev pub invoke_encrypt : EncryptArguments → Exec (Client json b64 native) (Sealed Header)
  invoke_encrypt x = called x.conv_id x.session_json x.plaintext

  -- The arguments are sessionJson, plaintext and associatedData, and no convId.
  abbrev pub share_arguments : String → String → EncryptArguments
  share_arguments session text = record { session_json = session; plaintext = text; conv_id = none }

  abbrev emit_key : String → Sealed Header → Exec (Client json b64 native) (Unit {0})
  emit_key device r c = (
    ok tt,
    record c { socket = send "STORY_KEY_SHARE" (story_key device r.ciphertext r.header) c.socket },
  )

  abbrev pub share_to :
      String → Peer → Option TargetDevice → Exec (Client json b64 native) (Unit {0})
  share_to text contact none = pure tt
  share_to text contact (some device) = do
    stored ← reading (get_ratchet_session contact.id)
    if truthy? stored
        then (do
          r ← invoke_encrypt (share_arguments (or_else stored "") text)
          emit_key device.device_id r)
        else pure tt

  -- The story's key for every contact.
  unfoldable pub share_key : String → List Peer → Exec (Client json b64 native) (Unit {0})
  share_key text [] c = pure tt c
  share_key text (contact ∷ contacts) c =
      also (share_to text contact (head? contact.devices) c) (share_key text contacts)

  abbrev key_text : String → String → Value
  key_text key nonce =
      object (("type", some "STORY_KEY") ∷ ("key", some key) ∷ ("nonce", some nonce) ∷ [])

  pub record Stories (S : Type 0) : Type 0 where
    pub client : Client json b64 native
    pub session : Option SessionState
    pub contacts : List Peer
    pub all_stories : List S
    pub is_posting_story : Bool
    pub show_story_creator : Bool
    pub story_text : String
    pub toasts : Toasts

  module _ {S : Type 0} where
    abbrev toast : String → ToastVariant → Stories S → Stories S
    toast message variant s = record s { toasts = add_toast message variant s.toasts }

    unfoldable pub refresh_stories : Answer (Option (List S)) → Stories S → Stories S
    refresh_stories (loaded stories) s = record s { all_stories = or_else stories [] }
    refresh_stories (failed m) s = s

    -- The `catch`; an error without a message prints as undefined.
    abbrev fail_post : Option String → Stories S → Stories S
    fail_post message s =
        toast (text_append "Failed to post story: " (or_else message "undefined")) error s

    -- `message` is what `err.message` is of a thrown text.
    module _ (message : String → Option String) where
      abbrev pub shared :
          Answer (Option (List S))
          → Result (Unit {0}) × Client json b64 native
          → Stories S
          → Stories S
      shared fetched (ok _, c) s =
          refresh_stories fetched
            (record (toast "Story posted successfully!" success (record s { client = c })) {
              show_story_creator = false;
              story_text = "";
            })
      shared fetched (err e, c) s = fail_post (message e) (record s { client = c })

      -- The story is encrypted, uploaded and its key shared.
      abbrev pub uploaded_with :
          String → String → Answer (Unit {0}) → Answer (Option (List S)) → Stories S → Stories S
      uploaded_with key nonce (failed m) fetched s = fail_post m s
      uploaded_with key nonce (loaded _) fetched s =
          shared fetched (share_key (stringify (key_text key nonce)) s.contacts s.client) s

      abbrev pub encrypted_with :
          String
          → Answer (String × String)
          → Answer (Unit {0})
          → Answer (Option (List S))
          → Stories S
          → Stories S
      encrypted_with key (failed m) answer fetched s = fail_post m s
      encrypted_with key (loaded r) answer fetched s = uploaded_with key r.1 answer fetched s

      abbrev pub post_as :
          Option SessionState
          → String
          → Answer (String × String)
          → Answer (Unit {0})
          → Answer (Option (List S))
          → Stories S
          → Stories S
      post_as none key cipher answer fetched s = s
      post_as (some _) key cipher answer fetched s =
          record (encrypted_with key cipher answer fetched (record s { is_posting_story = true })) {
            is_posting_story = false;
          }

      unfoldable pub handle_post_story :
          String
          → String
          → Answer (String × String)
          → Answer (Unit {0})
          → Answer (Option (List S))
          → Stories S
          → Stories S
      handle_post_story text key cipher answer fetched s =
          if is_blank text then s else post_as s.session key cipher answer fetched s
