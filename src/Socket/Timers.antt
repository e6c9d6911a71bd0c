-- ===== src/Socket/Timers.antt =====
-- socket.ts: the timers and the backoff of TrustlineSocket, as an invariant of every event.
use ep2pchat.Base.{ℕ, ◌≤◌, ◌≡◌, ◌⊎◌, String, false, Option, none, some, List, [], ◌∷◌, arith}
use ep2pchat.Socket.{
  Socket, ConnectionState, connected, new_socket, connect, send, destroy, on_open, on_close,
  flush_queue, send_auth, set_state, start_heartbeat,
}
use ep2pchat.Socket.Events.{Event, step, run}
use ep2pchat.Socket.Flush.{flush_queue-eq}
use ep2pchat.Socket.Cases.{reset, finish, on_open_cases, step-Keeps}

abbrev pub Within : Option ℕ → Type 0
Within none = Unit
Within (some d) = (1000 ≤ d) × (d ≤ 30000)

pub record IsSound {P : Type 0} (s : Socket P) : Type 0 where
  pub least : 1000 ≤ s.backoff_ms
  pub most : s.backoff_ms ≤ 30000
  pub timed : Within s.reconnect_timer
  -- a pending reconnection means that there is no socket
  pub lone : (s.reconnect_timer ≡ none) ⊎ (s.ws ≡ none)
  pub quiet : (s.disabled ≡ false) ⊎ ((s.reconnect_timer ≡ none) × (s.ws ≡ none))

module _ {P : Type 0} where
  pub new_socket-IsSound : IsSound (new_socket {P = P})
  new_socket-IsSound = ground arith

  connect-IsSound :
      (t : String) (d : Option String) (s : Socket P) → IsSound s → IsSound (connect t d s)
  unfolding connect
  connect-IsSound t d s v = ground arith

  send-IsSound : (k : String) (p : P) (s : Socket P) → IsSound s → IsSound (send k p s)
  unfolding send
  send-IsSound k p s v = ground arith

  destroy-IsSound : (s : Socket P) → IsSound s → IsSound (destroy s)
  unfolding destroy
  destroy-IsSound s v = ground arith

  on_close-IsSound : (s : Socket P) → IsSound s → IsSound (on_close s)
  unfolding on_close
  on_close-IsSound s v = ground arith

  flush_queue-IsSound : (s : Socket P) → IsSound s → IsSound (flush_queue s)
  flush_queue-IsSound s v = rw (flush_queue-eq s) (ground arith)

  send_auth-IsSound : (s t : Socket P) → send_auth s ≡ some t → IsSound s → IsSound t
  unfolding send_auth
  send_auth-IsSound s t e v = ground arith

  set_state-IsSound : (c : ConnectionState) (s : Socket P) → IsSound s → IsSound (set_state c s)
  unfolding set_state
  set_state-IsSound c s v = ground arith

  finish-IsSound : (s : Socket P) → IsSound s → IsSound (finish s)
  unfolding start_heartbeat
  finish-IsSound s v =
      let w = flush_queue-IsSound _ (set_state-IsSound connected s v) in
      record { least = w.least; most = w.most; timed = w.timed; lone = w.lone; quiet = w.quiet }

  on_open-IsSound : (s : Socket P) → IsSound s → IsSound (on_open s)
  on_open-IsSound s v =
      let w : IsSound (reset s) = ground arith in
      on_open_cases IsSound s (λ _. w) (λ t e. finish-IsSound t (send_auth-IsSound (reset s) t e w))

  -- Every event keeps `IsSound`.
  pub step-IsSound : (e : Event P) (s : Socket P) → IsSound s → IsSound (step e s)
  step-IsSound e s v =
      step-Keeps (λ _. IsSound) s
        (record {
          idle = λ _ _. v;
          connect_keeps = λ t d. connect-IsSound t d s v;
          send_keeps = λ k p. send-IsSound k p s v;
          destroy_keeps = destroy-IsSound s v;
          open_keeps = λ i _. on_open-IsSound _ (ground arith);
          close_keeps = λ i. on_close-IsSound _ (ground arith);
          detached_keeps = λ i _. ground arith;
          message_keeps = λ i m. ground arith;
          reconnect_keeps = λ d _. connect-IsSound _ _ _ (ground arith);
          heartbeat_keeps = λ j _. ground arith;
        })
        e

  -- From a state in which this holds every run ends in one: the backoff and the delay of a pending
  -- reconnection are between one second and thirty, a reconnection is pending only while there is
  -- no socket, and neither is there while the object is disabled.
  pub run-IsSound : (es : List (Event P)) (s : Socket P) → IsSound s → IsSound (run es s)
  unfolding run
  run-IsSound [] s v = v
  run-IsSound (e ∷ es) s v = run-IsSound es (step e s) (step-IsSound e s v)
