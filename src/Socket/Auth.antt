-- ===== src/Socket/Auth.antt =====
-- socket.ts: the AUTH message that `onopen` sends before anything else.
use ep2pchat.Base.{
  update, ℕ, ◌≡◌, refl, if_pos, if_neg, sym, subst, inl, inr, String, true, Option, none, some,
  List, [], ◌∷◌, arith, truthy, Option-cases,
}
use ep2pchat.Socket.{
  Socket, Frame, auth, ping, msg, connected, ConnectionState, ConnectionState-discrete, ws_closed,
  new_socket, connect, send, destroy, on_open, on_close, flush_queue, send_auth, set_state,
  transmit, start_heartbeat, open_ws,
}
use ep2pchat.Socket.Events.{Event, step, run}
use ep2pchat.Socket.First.{
  first_on, auth_first, Authed, is_auth-append, is_auth-append_auth, auth_first-append, Every,
  flushed-every, Authed-append,
}
use ep2pchat.Socket.Flush.{flush_queue-eq}
use ep2pchat.Socket.Cases.{reset, finish, on_open_cases, send_auth_token, step-Keeps}

module _ {P : Type 0} where
  pub record IsAuthed (s : Socket P) : Type 0 where
    pub token : truthy s.current_token ≡ true
    pub current : Authed (open_ws s) s.wire
    pub every : (i : ℕ) → auth_first (first_on i s.wire) ≡ true

  flush_queue-IsAuthed : (s : Socket P) → IsAuthed s → IsAuthed (flush_queue s)
  flush_queue-IsAuthed s v = rw (flush_queue-eq s) (record {
    token = v.token;
    current = Authed-append (open_ws s) s.wire _ v.current;
    every = λ i. flushed-every i (open_ws s) s.outbound_queue s.wire v.current (v.every i);
  })

  transmit-IsAuthed :
      (s : Socket P) (j : ℕ) (f : Frame P)
      → open_ws s ≡ some j
      → IsAuthed s
      → IsAuthed (transmit j f s)
  transmit-IsAuthed s j f e v =
      let a = is_auth-append j s.wire ((j, f) ∷ []) (rw e at v.current) in
      record {
        token = v.token;
        current = Authed-append (open_ws s) s.wire _ v.current;
        every = λ i. auth_first-append i j s.wire f a (v.every i);
      }

  set_state-IsAuthed : (c : ConnectionState) (s : Socket P) → IsAuthed s → IsAuthed (set_state c s)
  unfolding set_state
  set_state-IsAuthed c s v = elim (ConnectionState-discrete s.state c) [
    | yes p ↦ rw (if_pos _ p) v
    | no n ↦ rw (if_neg _ n) (record { token = v.token; current = v.current; every = v.every })
  ]

  -- The facts that `onopen` starts from: its socket need not have been sent anything.
  send_auth-IsAuthed :
      (s t : Socket P)
      → truthy s.current_token ≡ true
      → ((i : ℕ) → auth_first (first_on i s.wire) ≡ true)
      → send_auth s ≡ some t
      → IsAuthed t
  send_auth-IsAuthed s t k h e = elim (send_auth_token s t k e) [
    | inl (o, same) ↦ subst IsAuthed (sym same) (record { token = k; current = rw o tt; every = h })
    | inr (j, o, sent) ↦
        let a = is_auth-append_auth j s.wire s.current_token (h j) in
        subst IsAuthed (sym sent) (record {
          token = k;
          current = rw o a;
          every = λ i. auth_first-append i j s.wire (auth s.current_token) a (h i);
        })
  ]

  finish-IsAuthed : (s : Socket P) → IsAuthed s → IsAuthed (finish s)
  unfolding start_heartbeat
  finish-IsAuthed s v =
      let w = flush_queue-IsAuthed _ (set_state-IsAuthed connected s v) in
      record { token = w.token; current = w.current; every = w.every }

  send_auth-thrown : (s : Socket P) → send_auth s ≡ none → open_ws s ≡ none
  unfolding send_auth
  send_auth-thrown s e = ground arith

  on_open-IsAuthed :
      (s : Socket P)
      → truthy s.current_token ≡ true
      → ((i : ℕ) → auth_first (first_on i s.wire) ≡ true)
      → IsAuthed (on_open s)
  on_open-IsAuthed s k h =
      on_open_cases IsAuthed s
        (λ e. record { token = k; current = rw (send_auth-thrown (reset s) e) tt; every = h })
        (λ t e. finish-IsAuthed t (send_auth-IsAuthed (reset s) t k h e))

  -- What the other handlers leave alone: the wire, and an open socket.
  module _ (s u : Socket P) where
    calm-IsAuthed :
        open_ws u ≡ none
        → u.wire ≡ s.wire
        → truthy u.current_token ≡ true
        → Every s.wire
        → IsAuthed u
    calm-IsAuthed o w k v = record { token = k; current = rw o tt; every = subst Every (sym w) v }

  connect-IsAuthed :
      (t : String) (d : Option String) (s : Socket P) → IsAuthed s → IsAuthed (connect t d s)
  unfolding connect
  connect-IsAuthed t d s v =
      calm-IsAuthed s (connect t d s) (ground arith) (ground arith) (ground arith) v.every

  on_close-IsAuthed :
      (s : Socket P) → truthy s.current_token ≡ true → Every s.wire → IsAuthed (on_close s)
  unfolding on_close
  on_close-IsAuthed s k v =
      calm-IsAuthed s (on_close s) (ground arith) (ground arith) (ground arith) v

  shut-IsAuthed :
      (i : ℕ) (s : Socket P)
      → IsAuthed s
      → IsAuthed (record s { ready = update s.ready i ws_closed })
  shut-IsAuthed i s v = record { token = v.token; current = ground arith; every = v.every }

  destroy-IsAuthed : (s : Socket P) → IsAuthed s → IsAuthed (destroy s)
  unfolding destroy
  destroy-IsAuthed s v =
      calm-IsAuthed s (destroy s) (ground arith) (ground arith) (ground arith) v.every

  send-IsAuthed : (k : String) (p : P) (s : Socket P) → IsAuthed s → IsAuthed (send k p s)
  unfolding send
  send-IsAuthed k p s v = elim (Option-cases (open_ws s)) [
    | inl e ↦ rw (e, send) (record { token = v.token; current = v.current; every = v.every })
    | inr (j, e) ↦ rw (e, send) (transmit-IsAuthed s j (msg k p) e v)
  ]

  step-IsAuthed : (e : Event P) (s : Socket P) → IsAuthed s → IsAuthed (step e s)
  step-IsAuthed e s v =
      step-Keeps (λ _. IsAuthed) s
        (record {
          idle = λ _ _. v;
          connect_keeps = λ t d. connect-IsAuthed t d s v;
          send_keeps = λ k p. send-IsAuthed k p s v;
          destroy_keeps = destroy-IsAuthed s v;
          open_keeps = λ i _. on_open-IsAuthed _ v.token v.every;
          close_keeps = λ i. on_close-IsAuthed _ v.token v.every;
          detached_keeps = λ i _. shut-IsAuthed i s v;
          message_keeps = λ _ m. record { token = v.token; current = v.current; every = v.every };
          reconnect_keeps = λ d _.
              connect-IsAuthed _ _ _
                (record { token = v.token; current = v.current; every = v.every });
          heartbeat_keeps = λ j e. transmit-IsAuthed s j ping e v;
        })
        e

  run-IsAuthed : (es : List (Event P)) (s : Socket P) → IsAuthed s → IsAuthed (run es s)
  unfolding run
  run-IsAuthed [] s v = v
  run-IsAuthed (e ∷ es) s v = run-IsAuthed es (step e s) (step-IsAuthed e s v)

  first_connect-IsAuthed :
      (token : String) (device : Option String)
      → truthy token ≡ true
      → IsAuthed (connect token device new_socket)
  unfolding connect
  first_connect-IsAuthed token device h =
      calm-IsAuthed new_socket (connect token device new_socket) (ground arith) (ground arith)
        (ground arith) (λ i. refl)

  -- After a first `connect` with a token, whatever happens, nothing is sent on any socket before
  -- an AUTH message.
  pub auth_before_all :
      (token : String) (device : Option String) (es : List (Event P)) (i : ℕ)
      → truthy token ≡ true
      → auth_first (first_on i (run es (connect token device new_socket)).wire) ≡ true
  auth_before_all token device es i h =
      (run-IsAuthed es _ (first_connect-IsAuthed token device h)).every i
