-- ===== src/Arena/Conversation.antt =====
-- ChatArena.tsx and useChat.ts together: what comes of the texts that a user sends to another one.
use ep2pchat.Base.{
  ◌≡◌, ◌≢◌, ap, sym, subst, ◌∙◌, String, false, Option, some, List, [], ◌∷◌, ◌++◌, map, is_blank,
  head?, All, append_assoc, append-nil, map-append,
}
use ep2pchat.Base.Codec.{Json, Base64}
use ep2pchat.Orchestration.{Ratchet}
use ep2pchat.Chat.{Client, handle_incoming_message}
use ep2pchat.Vault.History.{Shown}
use ep2pchat.Arena.{Arena, Peer, TargetDevice}
use ep2pchat.Arena.Relay.{Origin, relayed}
use ep2pchat.Arena.Talk.{Sealing, Post, origin_of, Talk, over, says, CanPost, CanReceive}
use ep2pchat.Arena.Exchange.{posted, sender, sent, sender-CanPost, dropped}

module _ (json : Json) (b64 : Base64) (native : Ratchet) where
  abbrev pub shown_texts : Arena json b64 native → List (Option String)
  shown_texts a = map (λ (m : Shown json.Value). m.text) a.client.messages

  -- What comes of the posts: a run of the two clients after which the sender shows them all, in order,
  -- and the receiver is as it was.
  pub record IsUnheard (device : TargetDevice) (o : Origin) (ps : List Post)
      (a : Arena json b64 native) (c : Client json b64 native) : Type 0 where
    pub final : Arena json b64 native
    pub talk : Talk json b64 native device o ps a c final c
    pub shown : shown_texts final ≡ shown_texts a ++ map (λ (p : Post). some p.text) ps

module _ (json : Json) (b64 : Base64) (native : Ratchet) (sealing : Sealing native) (contact : Peer)
    (device : TargetDevice) (o : Origin) where
  -- Where the ratchet binds the associated data, the sender can post to a contact whose id is not the
  -- one that the server names as the sender, and the receiver has its keys and a session for the
  -- sender, any texts that are not blank, sent one after another, are all handed to the socket and
  -- shown by the sender, in order, and none of the messages that the server makes of them changes
  -- anything at the receiver: none is shown, stored or acknowledged.
  pub posts-IsUnheard :
      (ps : List Post) (a : Arena json b64 native) (c : Client json b64 native)
      → contact.id ≢ o.user_id
      → head? contact.devices ≡ some device
      → All (λ (p : Post). is_blank p.text ≡ false) ps
      → CanPost json b64 native sealing contact a
      → CanReceive json b64 native o c
      → IsUnheard json b64 native device o ps a c
  posts-IsUnheard [] a c differs aimed ws l r = record {
    final = a;
    talk = over;
    shown = sym (append-nil (shown_texts json b64 native a));
  }
  posts-IsUnheard (p ∷ ps) a c differs aimed (w, ws) l r =
      let b = sender json b64 native sealing contact device p a aimed w l in
      let m = posted json b64 native sealing contact device p a aimed w l in
      let went = sent json b64 native sealing contact device p a aimed w l in
      let lost = dropped json b64 native sealing contact device p a aimed w l o c differs r in
      let handled =
        handle_incoming_message json b64 native (relayed b64 native (origin_of o p) m) c in
      let rest =
        posts-IsUnheard ps b c differs aimed ws
          (sender-CanPost json b64 native sealing contact device p a aimed w l) r in
      record {
        final = rest.final;
        talk = says p m (ap (λ (e : Arena json b64 native). e.client.socket) went) (
            subst (λ e. Talk json b64 native device o ps e handled rest.final c) (sym went)
              (subst (λ d. Talk json b64 native device o ps b d rest.final c) (sym lost)
                rest.talk));
        shown =
            rest.shown
            ∙ ap (λ l. l ++ map (λ (q : Post). some q.text) ps)
                (map-append (λ (s : Shown json.Value). s.text) a.client.messages _)
            ∙ append_assoc (shown_texts json b64 native a) (some p.text ∷ [])
                (map (λ (q : Post). some q.text) ps);
      }
