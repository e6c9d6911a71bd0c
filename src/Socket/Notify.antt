-- ===== src/Socket/Notify.antt =====
-- socket.ts, `setState`: what the connection-state handlers are told.
use ep2pchat.Base.{
  ◌≡◌, refl, sym, ◌∙◌, ◌≢◌, inl, inr, String, Option, some, List, [], ◌∷◌, ◌++◌, arith, if_pos,
  if_neg, subst,
}
use ep2pchat.Socket.{
  Socket, ConnectionState, ConnectionState-discrete, connecting, connected, disconnected,
  reconnecting, connect, send, destroy, on_open, on_close, send_auth, set_state, start_heartbeat,
}
use ep2pchat.Socket.Events.{Event, step, run}
use ep2pchat.Socket.Flush.{flush_queue-eq}
use ep2pchat.Socket.Cases.{reset, finish, on_open_cases, send_auth_cases, step-Keeps}

-- The state that a handler takes the connection to be in, which at first is `d`.
abbrev pub last_or : ConnectionState → List ConnectionState → ConnectionState
last_or d [] = d
last_or d (c ∷ cs) = last_or c cs

-- Each call tells of a change.
abbrev pub Changes : ConnectionState → List ConnectionState → Type 0
Changes d [] = Unit
Changes d (c ∷ cs) = (d ≢ c) × Changes c cs

last_or-append : (d c : ConnectionState) (cs : List ConnectionState) → last_or d (cs ++ c ∷ []) ≡ c
last_or-append d c [] = refl
last_or-append d c (b ∷ cs) = last_or-append b c cs

Changes-append :
    (d c : ConnectionState) (cs : List ConnectionState)
    → Changes d cs
    → last_or d cs ≢ c
    → Changes d (cs ++ c ∷ [])
Changes-append d c [] h n = (n, tt)
Changes-append d c (b ∷ cs) (m, h) n = (m, Changes-append b c cs h n)

module _ {P : Type 0} where
  -- The handlers were told the present state last, and of changes only.
  pub record IsTold (s : Socket P) : Type 0 where
    pub last : last_or disconnected s.notified ≡ s.state
    pub changes : Changes disconnected s.notified

  set_state-IsTold : (c : ConnectionState) (s : Socket P) → IsTold s → IsTold (set_state c s)
  unfolding set_state
  set_state-IsTold c s v = elim (ConnectionState-discrete s.state c) [
    | yes p ↦ rw (if_pos _ p) v
    | no n ↦ rw (if_neg _ n) (record {
      last = last_or-append disconnected c s.notified;
      changes = Changes-append disconnected c s.notified v.changes (λ e. n (sym v.last ∙ e));
    })
  ]

  connect-IsTold :
      (t : String) (d : Option String) (s : Socket P) → IsTold s → IsTold (connect t d s)
  unfolding connect
  connect-IsTold t d s v = ground (
    arith,
    last_or-append disconnected connecting s.notified,
    Changes-append disconnected connecting s.notified,
  )

  destroy-IsTold : (s : Socket P) → IsTold s → IsTold (destroy s)
  unfolding destroy
  destroy-IsTold s v = ground (
    arith,
    last_or-append disconnected disconnected s.notified,
    Changes-append disconnected disconnected s.notified,
  )

  on_close-IsTold : (s : Socket P) → IsTold s → IsTold (on_close s)
  unfolding on_close
  on_close-IsTold s v = ground (
    arith,
    last_or-append disconnected reconnecting s.notified,
    Changes-append disconnected reconnecting s.notified,
  )

  send-IsTold : (k : String) (p : P) (s : Socket P) → IsTold s → IsTold (send k p s)
  unfolding send
  send-IsTold k p s v = ground arith

  send_auth-IsTold : (s t : Socket P) → send_auth s ≡ some t → IsTold s → IsTold t
  send_auth-IsTold s t e v = elim (send_auth_cases s t e) [
    | inl h ↦ subst IsTold (sym h) v
    | inr (j, _, h) ↦ subst IsTold (sym h) (record { last = v.last; changes = v.changes })
  ]

  finish-IsTold : (s : Socket P) → IsTold s → IsTold (finish s)
  unfolding start_heartbeat
  finish-IsTold s v =
      let w = set_state-IsTold connected s v in
      rw (flush_queue-eq (set_state connected s)) (record { last = w.last; changes = w.changes })

  on_open-IsTold : (s : Socket P) → IsTold s → IsTold (on_open s)
  on_open-IsTold s v =
      let w : IsTold (reset s) = record { last = v.last; changes = v.changes } in
      on_open_cases IsTold s (λ _. w) (λ t e. finish-IsTold t (send_auth-IsTold (reset s) t e w))

  step-IsTold : (e : Event P) (s : Socket P) → IsTold s → IsTold (step e s)
  step-IsTold e s v =
      step-Keeps (λ _. IsTold) s
        (record {
          idle = λ _ _. v;
          connect_keeps = λ t d. connect-IsTold t d s v;
          send_keeps = λ k p. send-IsTold k p s v;
          destroy_keeps = destroy-IsTold s v;
          open_keeps = λ i _. on_open-IsTold _ (record { last = v.last; changes = v.changes });
          close_keeps = λ i. on_close-IsTold _ (record { last = v.last; changes = v.changes });
          detached_keeps = λ i _. record { last = v.last; changes = v.changes };
          message_keeps = λ _ m. record { last = v.last; changes = v.changes };
          reconnect_keeps =
              λ d _. connect-IsTold _ _ _ (record { last = v.last; changes = v.changes });
          heartbeat_keeps = λ j _. record { last = v.last; changes = v.changes };
        })
        e

  -- From any state in which that holds, so in particular from a new object: after every run the
  -- last state that the handlers were told is the present one, and no call repeated a state.
  pub run-IsTold : (es : List (Event P)) (s : Socket P) → IsTold s → IsTold (run es s)
  unfolding run
  run-IsTold [] s v = v
  run-IsTold (e ∷ es) s v = run-IsTold es (step e s) (step-IsTold e s v)
