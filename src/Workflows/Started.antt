-- ===== src/Workflows/Started.antt =====
-- useChatWorkflows.ts: what `startChat` leaves behind, and that a toggle changes one member.
use ep2pchat.Base.{
  ◌≡◌, refl, subst, String, Bool, true, false, some, List, [], ◌∷◌, ◌++◌, ite, string_dec, keep_if,
  not, arith, Bool-cases, inl, inr,
}
use ep2pchat.Base.Dict.{lookup, lookup-insert}
use ep2pchat.Stores.{Contact, DeviceBundle, HandshakeStatus, idle, ratcheting}
use ep2pchat.Workflows.{
  Answer, loaded, failed, has, toggle, Workspace, open_contact, load_history, load_keys, start_chat,
}

has-keep_if :
    (id j : String) (ids : List String)
    → has j (keep_if (λ i. elim (string_dec i id) [ yes _ ↦ false | no _ ↦ true ]) ids)
      ≡ ite (string_dec id j) false (has j ids)
has-keep_if id j [] = ground arith
has-keep_if id j (i ∷ ids) = ground (arith, has-keep_if id j ids)

has-append :
    (id j : String) (ids : List String)
    → has j (ids ++ id ∷ []) ≡ ite (string_dec id j) true (has j ids)
has-append id j [] = ground arith
has-append id j (i ∷ ids) = ground (arith, has-append id j ids)

has_same : (id j : String) (ids : List String) (b : Bool) → id ≡ j → has id ids ≡ b → has j ids ≡ b
has_same id j ids b e h = subst (λ x. has x ids ≡ b) e h

-- A toggle takes the contact into the set or out of it, and leaves the others.
pub has-toggle :
    (id j : String) (ids : List String)
    → has j (toggle id ids) ≡ ite (string_dec id j) (not (has j ids)) (has j ids)
unfolding toggle
has-toggle id j ids = elim (Bool-cases (has id ids)) [
  | inl e ↦ rw e (elim (string_dec id j) [
    | yes p ↦ let f = has_same id j ids true p e in ground (arith, has-keep_if id j ids)
    | no n ↦ ground (arith, has-keep_if id j ids)
  ])
  | inr e ↦ rw e (elim (string_dec id j) [
    | yes p ↦ let f = has_same id j ids false p e in ground (arith, has-append id j ids)
    | no n ↦ ground (arith, has-append id j ids)
  ])
]

abbrev history_of : {M : Type 0} → Answer (List M) → List M
history_of (loaded ms) = ms
history_of (failed m) = []

abbrev handshake_of : {A : Type 0} → Answer A → HandshakeStatus
handshake_of (loaded a) = ratcheting
handshake_of (failed m) = idle

module _ {M S : Type 0} where
  -- The messages, the handshake and the unread counts after the chat with `k` was opened.
  pub record IsStarted (k : String) (history : Answer (List M))
      (bundle : Answer (List DeviceBundle)) (v w : Workspace M S) : Type 0 where
    pub messages : w.chat.messages ≡ history_of history
    pub handshake : w.chat.handshake_status ≡ handshake_of bundle
    pub unread :
        (j : String)
        → lookup j w.chat.unread_by_contact
          ≡ ite (string_dec k j) (some 0) (lookup j v.chat.unread_by_contact)

  -- `startChat` shows the messages of the vault, or none if it fails, resets the unread count of the
  -- contact and no other, and ends with the handshake done exactly if the keys were loaded.
  pub start_chat-IsStarted :
      (contact : Contact) (history : Answer (List M)) (bundle : Answer (List DeviceBundle))
      (w : Workspace M S)
      → IsStarted contact.id history bundle w (start_chat contact history bundle w)
  unfolding start_chat load_keys load_history open_contact
  start_chat-IsStarted contact (loaded h) (loaded b) w = record {
    messages = refl;
    handshake = refl;
    unread = λ j. lookup-insert contact.id j 0 w.chat.unread_by_contact;
  }
  start_chat-IsStarted contact (loaded h) (failed m) w = record {
    messages = refl;
    handshake = refl;
    unread = λ j. lookup-insert contact.id j 0 w.chat.unread_by_contact;
  }
  start_chat-IsStarted contact (failed m) (loaded b) w = record {
    messages = refl;
    handshake = refl;
    unread = λ j. lookup-insert contact.id j 0 w.chat.unread_by_contact;
  }
  start_chat-IsStarted contact (failed m) (failed n) w = record {
    messages = refl;
    handshake = refl;
    unread = λ j. lookup-insert contact.id j 0 w.chat.unread_by_contact;
  }
