-- ===== src/Socket/Pending.antt =====
-- socket.ts: what each operation does to the messages on the wire and in the outbound queue.
use mathlib.Core.List.{map-append}
use ep2pchat.Base.{
  ℕ, ◌≡◌, refl, sym, ap, ◌∙◌, inl, inr, String, Bool, true, false, Option, none, some, List, [],
  ◌∷◌, ◌++◌, map, append_assoc, append-nil, arith, keep_if, keep_if-append, Option-cases,
}
use ep2pchat.Socket.{
  Socket, Frame, auth, msg, connected, connect, send, destroy, on_open, on_close, flush_queue,
  send_auth, set_state, transmit, start_heartbeat, open_ws,
}
use ep2pchat.Socket.Flush.{tagged, kept, flushed, flush_queue-eq}
use ep2pchat.Socket.Cases.{reset, finish, on_open_cases, send_auth_cases}

module _ {P : Type 0} where
  abbrev pub is_msg : Frame P → Bool
  is_msg (msg kind payload) = true
  is_msg _ = false

  abbrev pub frames : List (ℕ × Frame P) → List (Frame P)
  frames = map (λ f. f.1)

  -- The callers' messages among all frames.
  abbrev pub messages : List (Frame P) → List (Frame P)
  messages = keep_if is_msg

  -- What was handed to a socket, and then what waits.
  abbrev pub pending : Socket P → List (Frame P)
  pending s = messages (frames s.wire) ++ messages s.outbound_queue

  abbrev pub Drained : Option ℕ → List (Frame P) → Type 0
  Drained none q = Unit
  Drained (some j) q = q ≡ []

  -- While the current socket is open, nothing waits.
  abbrev pub IsDrained : Socket P → Type 0
  IsDrained s = Drained (open_ws s) s.outbound_queue

  messages-append :
      (w v : List (ℕ × Frame P))
      → messages (frames (w ++ v)) ≡ messages (frames w) ++ messages (frames v)
  messages-append w v = rw (map-append _ w v) (keep_if-append is_msg (frames w) (frames v))

  frames-tagged : (j : ℕ) (q : List (Frame P)) → frames (tagged j q) ≡ q
  frames-tagged j [] = refl
  frames-tagged j (f ∷ q) = ap (◌∷◌ f) (frames-tagged j q)

  flushed-kept :
      (o : Option ℕ) (q : List (Frame P))
      → messages (frames (flushed o q)) ++ messages (kept o q) ≡ messages q
  flushed-kept none q = refl
  flushed-kept (some j) q = rw (frames-tagged j q) (append-nil (messages q))

  flush_queue-pending : (s : Socket P) → pending (flush_queue s) ≡ pending s
  flush_queue-pending s = rw (flush_queue-eq s, messages-append, append_assoc, flushed-kept) refl

  kept-Drained : (o : Option ℕ) (q : List (Frame P)) → Drained o (kept o q)
  kept-Drained none q = tt
  kept-Drained (some j) q = refl

  flush_queue-IsDrained : (s : Socket P) → IsDrained (flush_queue s)
  flush_queue-IsDrained s = rw (flush_queue-eq s) (kept-Drained (open_ws s) s.outbound_queue)

  -- A frame that is no message leaves the messages as they were.
  pub transmit-pending :
      (s : Socket P) (j : ℕ) (f : Frame P) → is_msg f ≡ false → pending (transmit j f s) ≡ pending s
  transmit-pending s j f h =
      ap (λ w. w ++ messages s.outbound_queue)
        (messages-append s.wire ((j, f) ∷ []) ∙ rw h (append-nil (messages (frames s.wire))))

  send_auth-pending : (s t : Socket P) → send_auth s ≡ some t → pending t ≡ pending s
  send_auth-pending s t e = elim (send_auth_cases s t e) [
    | inl h ↦ ap pending h
    | inr (j, _, h) ↦ ap pending h ∙ transmit-pending s j (auth s.current_token) refl
  ]

  send_auth-thrown : (s : Socket P) → send_auth s ≡ none → IsDrained s
  unfolding send_auth
  send_auth-thrown s e = ground arith

  set_state-pending : (s : Socket P) → pending (set_state connected s) ≡ pending s
  unfolding set_state
  set_state-pending s = ground arith

  finish-pending : (s : Socket P) → pending (finish s) ≡ pending s
  unfolding start_heartbeat
  finish-pending s = flush_queue-pending (set_state connected s) ∙ set_state-pending s

  finish-IsDrained : (s : Socket P) → IsDrained (finish s)
  unfolding start_heartbeat
  finish-IsDrained s = flush_queue-IsDrained (set_state connected s)

  pub connect-IsDrained :
      (t : String) (d : Option String) (s : Socket P) → IsDrained (connect t d s)
  unfolding connect
  connect-IsDrained t d s = ground arith

  pub connect-pending :
      (t : String) (d : Option String) (s : Socket P) → pending (connect t d s) ≡ pending s
  unfolding connect
  connect-pending t d s = ground arith

  pub on_close-IsDrained : (s : Socket P) → IsDrained (on_close s)
  unfolding on_close
  on_close-IsDrained s = ground arith

  pub on_close-pending : (s : Socket P) → pending (on_close s) ≡ pending s
  unfolding on_close
  on_close-pending s = ground arith

  pub destroy-IsDrained : (s : Socket P) → IsDrained (destroy s)
  unfolding destroy
  destroy-IsDrained s = ground arith

  pub send-IsDrained : (k : String) (p : P) (s : Socket P) → IsDrained s → IsDrained (send k p s)
  unfolding send
  send-IsDrained k p s v = ground arith

  pub send-pending :
      (k : String) (p : P) (s : Socket P)
      → IsDrained s
      → pending (send k p s) ≡ pending s ++ msg k p ∷ []
  unfolding send
  send-pending k p s v = elim (Option-cases (open_ws s)) [
    | inl e ↦
        rw (e, send, keep_if-append)
          (sym (append_assoc (messages (frames s.wire)) (messages s.outbound_queue) (msg k p ∷ [])))
    | inr (j, e) ↦ let empty = rw e at v in rw (e, send) (simp (empty, messages-append, append-nil))
  ]

  pub on_open-pending : (s : Socket P) → pending (on_open s) ≡ pending s
  on_open-pending s =
      on_open_cases (λ u. pending u ≡ pending s) s (λ _. refl)
        (λ t e. finish-pending t ∙ send_auth-pending (reset s) t e)

  pub on_open-IsDrained : (s : Socket P) → IsDrained (on_open s)
  on_open-IsDrained s =
      on_open_cases IsDrained s (send_auth-thrown (reset s)) (λ t _. finish-IsDrained t)

  destroy-wire : (s : Socket P) → (destroy s).wire ≡ s.wire
  unfolding destroy
  destroy-wire s = ground arith

  destroy-outbound_queue : (s : Socket P) → (destroy s).outbound_queue ≡ []
  unfolding destroy
  destroy-outbound_queue s = ground arith

  pub destroy-pending : (s : Socket P) → pending (destroy s) ≡ messages (frames s.wire)
  destroy-pending s =
      rw (destroy-wire s, destroy-outbound_queue s) (append-nil (messages (frames s.wire)))
