-- ===== src/Socket/Delivery.antt =====
-- socket.ts: the messages that `send` was given, in order, on the wire or in the outbound queue.
use ep2pchat.Base.{
  ◌≡◌, refl, sym, ap, ◌≡⟨◌⟩◌, ◌∎, ◌≢◌, true, List, [], ◌∷◌, ◌++◌, append_assoc, append-nil, arith,
  All,
}
use ep2pchat.Socket.{Socket, Frame, ping, msg}
use ep2pchat.Socket.Events.{Event, connects, sends, destroys, step, run}
use ep2pchat.Socket.Cases.{is_callback, step-Keeps}
use ep2pchat.Socket.Pending.{
  frames, messages, pending, IsDrained, connect-IsDrained, send-IsDrained, destroy-IsDrained,
  on_open-IsDrained, on_close-IsDrained, connect-pending, send-pending, destroy-pending,
  on_open-pending, on_close-pending, transmit-pending,
}

module _ {P : Type 0} where
  -- The messages that are owed after an event.
  abbrev pub owed : Event P → Socket P → List (Frame P)
  owed (sends kind payload) s = pending s ++ msg kind payload ∷ []
  owed destroys s = messages (frames s.wire)
  owed _ s = pending s

  callback-owed : (e : Event P) (s : Socket P) → is_callback e ≡ true → pending s ≡ owed e s
  callback-owed (connects _ _) s h = refl
  callback-owed _ s h = ground arith

  pub step-IsDrained : (e : Event P) (s : Socket P) → IsDrained s → IsDrained (step e s)
  step-IsDrained e s v =
      step-Keeps (λ _. IsDrained) s
        (record {
          idle = λ _ _. v;
          connect_keeps = λ t d. connect-IsDrained t d s;
          send_keeps = λ k p. send-IsDrained k p s v;
          destroy_keeps = destroy-IsDrained s;
          open_keeps = λ i _. on_open-IsDrained _;
          close_keeps = λ i. on_close-IsDrained _;
          detached_keeps = λ i _. ground arith;
          message_keeps = λ _ m. v;
          reconnect_keeps = λ d _. connect-IsDrained _ _ _;
          heartbeat_keeps = λ j _. v;
        })
        e

  -- An event adds to the messages on the wire and in the queue what `send` was given, and only
  -- `destroy` drops any: those that wait.
  pub step-pending : (e : Event P) (s : Socket P) → IsDrained s → pending (step e s) ≡ owed e s
  step-pending e s v =
      step-Keeps (λ e u. pending u ≡ owed e s) s
        (record {
          idle = λ e h. callback-owed e s h;
          connect_keeps = λ t d. connect-pending t d s;
          send_keeps = λ k p. send-pending k p s v;
          destroy_keeps = destroy-pending s;
          open_keeps = λ i _. on_open-pending _;
          close_keeps = λ i. on_close-pending _;
          detached_keeps = λ i _. refl;
          message_keeps = λ _ m. refl;
          reconnect_keeps = λ d _. connect-pending _ _ _;
          heartbeat_keeps = λ j _. transmit-pending s j ping refl;
        })
        e

  -- What the events of a run hand to `send`, in order.
  abbrev pub accepted : List (Event P) → List (Frame P)
  accepted [] = []
  accepted (sends kind payload ∷ es) = msg kind payload ∷ accepted es
  accepted (_ ∷ es) = accepted es

  owed-accepted :
      (e : Event P) (es : List (Event P)) (s : Socket P)
      → e ≢ destroys
      → owed e s ++ accepted es ≡ pending s ++ accepted (e ∷ es)
  owed-accepted (sends kind payload) es s h =
      append_assoc (pending s) (msg kind payload ∷ []) (accepted es)
  owed-accepted destroys es s h = absurd (h refl)
  owed-accepted _ es s h = refl

  -- In a run without `destroy` no message is lost, doubled or overtaken: those on the wire and
  -- then those in the queue are the ones that were there, followed by the ones sent, in order.
  pub run-pending :
      (es : List (Event P)) (s : Socket P)
      → IsDrained s
      → All (λ e. e ≢ destroys) es
      → pending (run es s) ≡ pending s ++ accepted es
  unfolding run
  run-pending [] s v h = sym (append-nil (pending s))
  run-pending (e ∷ es) s v (h, hs) =
      pending (run es (step e s))
      ≡⟨ run-pending es (step e s) (step-IsDrained e s v) hs ⟩ pending (step e s) ++ accepted es
      ≡⟨ ap (λ q. q ++ accepted es) (step-pending e s v) ⟩ owed e s ++ accepted es
      ≡⟨ owed-accepted e es s h ⟩ pending s ++ accepted (e ∷ es) ∎
