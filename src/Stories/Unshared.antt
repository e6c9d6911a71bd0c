-- ===== src/Stories/Unshared.antt =====
-- useStoryWorkflows.ts: the key of a story is not sent to any contact.
use ep2pchat.Base.{
  ◌≡◌, refl, ◌∙◌, String, true, Option, none, some, List, [], ◌∷◌, head?, is_blank, if-same, arith,
}
use ep2pchat.Base.Exec.{Result, ok, err, Exec}
use ep2pchat.Base.Codec.{Json, Base64}
use ep2pchat.Orchestration.{Ratchet}
use ep2pchat.Chat.{Client}
use ep2pchat.Arena.{Peer, TargetDevice}
use ep2pchat.Stores.{SessionState}
use ep2pchat.Workflows.{Answer, loaded, failed}
use ep2pchat.Stories.{
  Stories, also, share_to, share_key, shared, post_as, handle_post_story, refresh_stories,
}

module _ {json : Json} {b64 : Base64} {native : Ratchet} where
  also-socket :
      (r : Result (Unit {0}) × Client json b64 native)
      (m : Exec (Client json b64 native) (Unit {0}))
      → ((d : Client json b64 native) → (m d).1.socket ≡ d.socket)
      → (also r m).1.socket ≡ r.1.socket
  also-socket (ok _, c) m h = h c
  also-socket (err e, c) m h = h c

module _ (json : Json) (b64 : Base64) (native : Ratchet) (text : String) where
  share_to-socket :
      (contact : Peer) (o : Option TargetDevice) (c : Client json b64 native)
      → (share_to json b64 native text contact o c).1.socket ≡ c.socket
  share_to-socket contact none c = refl
  share_to-socket contact (some device) c = ground arith

  share_key-socket :
      (contacts : List Peer) (c : Client json b64 native)
      → (share_key json b64 native text contacts c).1.socket ≡ c.socket
  unfolding share_key
  share_key-socket [] c = refl
  share_key-socket (contact ∷ contacts) c =
      also-socket (share_to json b64 native text contact (head? contact.devices) c)
        (share_key json b64 native text contacts) (share_key-socket contacts)
      ∙ share_to-socket contact (head? contact.devices) c

module _ (json : Json) (b64 : Base64) (native : Ratchet) {S : Type 0}
    (message : String → Option String) where
  shared-socket :
      (fetched : Answer (Option (List S))) (r : Result (Unit {0}) × Client json b64 native)
      (s : Stories json b64 native S)
      → (shared json b64 native message fetched r s).client.socket ≡ r.1.socket
  unfolding refresh_stories
  shared-socket (loaded l) (ok _, c) s = refl
  shared-socket (failed m) (ok _, c) s = refl
  shared-socket fetched (err e, c) s = refl

  post_as-socket :
      (o : Option SessionState) (key : String) (cipher : Answer (String × String))
      (answer : Answer (Unit {0})) (fetched : Answer (Option (List S)))
      (s : Stories json b64 native S)
      → (post_as json b64 native message o key cipher answer fetched s).client.socket
        ≡ s.client.socket
  post_as-socket none key cipher answer fetched s = refl
  post_as-socket (some _) key (failed m) answer fetched s = refl
  post_as-socket (some _) key (loaded r) (failed m) fetched s = refl
  post_as-socket (some _) key (loaded r) (loaded _) fetched s =
      shared-socket fetched _ (record s { is_posting_story = true })
      ∙ share_key-socket json b64 native _ s.contacts s.client

  -- Posting a story leaves the socket as it was: whatever the contacts, their sessions and the
  -- answers of the native part and of the server, no contact is sent the story's key.
  pub handle_post_story-socket :
      (text key : String) (cipher : Answer (String × String)) (answer : Answer (Unit {0}))
      (fetched : Answer (Option (List S))) (s : Stories json b64 native S)
      → (handle_post_story json b64 native message text key cipher answer fetched s).client.socket
        ≡ s.client.socket
  unfolding handle_post_story
  handle_post_story-socket text key cipher answer fetched s =
      if-same (is_blank text) (λ (d : Stories json b64 native S). d.client.socket) s _ refl
        (post_as-socket s.session key cipher answer fetched s)
