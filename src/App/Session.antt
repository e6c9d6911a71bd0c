-- ===== src/App/Session.antt =====
-- useAppInitialization.ts: the end of a session and the start of the next one.
use ep2pchat.Base.{
  ◌≡◌, ◌≢◌, refl, sym, subst, String, true, Option, none, some, List, [], ◌∷◌, not, All, or_else,
  truthy, if-both, if-same, arith,
}
use ep2pchat.Vault.Messages.{str_eq}
use ep2pchat.Stores.{Contact, auth, ChatState}
use ep2pchat.Workflows.{Answer, loaded, failed}
use ep2pchat.App.{
  App, SignedIn, MyDevice, others, use_device, with_users, current_device, load_workspace,
  handle_authenticated, handle_logout,
}

not-ne : (s t : String) → not (str_eq s t) ≡ true → s ≢ t
not-ne s t h = ground arith

others-All :
    (user_id : String) (users : List Contact)
    → All (λ (u : Contact). u.id ≢ user_id) (others user_id users)
unfolding others
others-All user_id [] = tt
others-All user_id (u ∷ us) =
    if-both (All (λ (v : Contact). v.id ≢ user_id)) (not (str_eq u.id user_id)) _ _
      (λ e. (not-ne u.id user_id e, others-All user_id us)) (others-All user_id us)

-- What a chat store keeps of another one: the open conversation, the last messages and the unread
-- counts.
pub record Keeps {M S : Type 0} (s t : ChatState M S) : Type 0 where
  pub active_contact : t.active_contact ≡ s.active_contact
  pub last_messages : t.last_message_by_contact ≡ s.last_message_by_contact
  pub unread : t.unread_by_contact ≡ s.unread_by_contact

module _ {P M S : Type 0} where
  use_device-contacts : (o : Option MyDevice) (a : App P M S) → (use_device o a).chats ≡ a.chats
  use_device-contacts none a = refl
  use_device-contacts (some d) a = if-same (truthy d.id) (λ (b : App P M S). b.chats) _ _ refl refl

  -- Nobody is a contact of their own once the workspace is loaded.
  pub load_workspace-others :
      (user_id : String) (users : Option (List Contact)) (devices : Option (List MyDevice))
      (a : App P M S)
      → All
          (λ (u : Contact). u.id ≢ user_id)
          (load_workspace user_id (loaded users) devices a).chats.contacts
  unfolding load_workspace
  load_workspace-others user_id users devices a =
      subst (λ (c : ChatState M S). All (λ (u : Contact). u.id ≢ user_id) c.contacts)
        (sym (
          use_device-contacts (current_device (or_else devices []))
            (with_users (others user_id (or_else users [])) a)))
        (others-All user_id (or_else users []))

  load_workspace-Keeps :
      (user_id : String) (users : Answer (Option (List Contact))) (devices : Option (List MyDevice))
      (a : App P M S)
      → Keeps a.chats (load_workspace user_id users devices a).chats
  unfolding load_workspace
  load_workspace-Keeps user_id (loaded users) devices a =
      subst (Keeps a.chats)
        (sym (
          use_device-contacts (current_device (or_else devices []))
            (with_users (others user_id (or_else users [])) a)))
        (record { active_contact = refl; last_messages = refl; unread = refl })
  load_workspace-Keeps user_id (failed m) devices a = record {
    active_contact = refl;
    last_messages = refl;
    unread = refl;
  }

  -- What the end of a session leaves: nobody is signed in, without keys, contacts and messages.
  pub record IsOut (a : App P M S) : Type 0 where
    pub session : a.account.session ≡ none
    pub keys : a.account.local_keys ≡ none
    pub device : a.account.my_device_id ≡ none
    pub token : a.token ≡ ""
    pub contacts : a.chats.contacts ≡ []
    pub messages : a.chats.messages ≡ []
    pub view : a.ui.root_view ≡ auth

  -- A confirmed logout signs out, and yet somebody else who signs in then, and whose workspace is
  -- loaded or not, finds the open conversation, the last messages and the unread counts of the session before.
  pub logout-authenticated :
      (x : SignedIn) (users : Answer (Option (List Contact))) (devices : Option (List MyDevice))
      (a : App P M S)
      → IsOut (handle_logout true a)
        × Keeps a.chats
            (load_workspace x.user_id users devices
              (handle_authenticated x (handle_logout true a))).chats
  unfolding handle_authenticated handle_logout
  logout-authenticated x users devices a =
      let k =
        load_workspace-Keeps x.user_id users devices
          (handle_authenticated x (handle_logout true a)) in
      (
        record {
          session = refl;
          keys = refl;
          device = refl;
          token = refl;
          contacts = refl;
          messages = refl;
          view = refl;
        },
        record {
          active_contact = k.active_contact;
          last_messages = k.last_messages;
          unread = k.unread;
        },
      )
