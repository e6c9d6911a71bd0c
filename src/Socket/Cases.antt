-- ===== src/Socket/Cases.antt =====
-- socket.ts: the case rules of TrustlineSocket's handlers. An invariant of the object is proved by
-- filling a record with what each handler has to establish.
use ep2pchat.Base.{
  update, ℕ, ◌≡◌, refl, ◌⊎◌, inl, inr, String, Bool, true, false, Option, none, some, ◌∷◌, [], ◌++◌,
  Option-cases, Bool-cases, arith, truthy,
}
use ep2pchat.Socket.{
  Socket, ReadyState, ws_connecting, ws_open, ws_closed, ping, auth, connected, connect, send,
  destroy, on_open, on_close, open_ws, transmit, send_auth, set_state, start_heartbeat, flush_queue,
  backoff_initial_ms,
}
use ep2pchat.Socket.Events.{
  Event, connects, sends, destroys, opened, received, closes, reconnect_fires, heartbeat_fires,
  on_message, reconnect_due, heartbeat_due, step, opens_at, closes_at, receives_at,
}

module _ {P : Type 0} where
  -- The state in which `onopen` sends AUTH, and the one that it leaves when that did not throw.
  abbrev pub reset : Socket P → Socket P
  reset s = record s { backoff_ms = backoff_initial_ms }

  abbrev pub finish : Socket P → Socket P
  finish s = start_heartbeat (flush_queue (set_state connected s))

  pub on_open_cases {ℓ} :
      (Q : Socket P → Type ℓ) (s : Socket P)
      → (send_auth (reset s) ≡ none → Q (reset s))
      → ((t : Socket P) → send_auth (reset s) ≡ some t → Q (finish t))
      → Q (on_open s)
  unfolding on_open
  on_open_cases Q s thrown sent = elim (Option-cases (send_auth (reset s))) [
    | inl e ↦ rw (e, on_open) (thrown e)
    | inr (t, e) ↦ rw (e, on_open) (sent t e)
  ]

  -- The browser's events, as against the calls of methods.
  abbrev pub is_callback : Event P → Bool
  is_callback (connects _ _) = false
  is_callback (sends _ _) = false
  is_callback destroys = false
  is_callback _ = true

  -- What establishes `Q` of every event at `s` and the state that it leads to.
  pub record Keeps {ℓ} (Q : Event P → Socket P → Type ℓ) (s : Socket P) : Type ℓ where
    pub idle : (e : Event P) → is_callback e ≡ true → Q e s
    pub connect_keeps :
        (token : String) (device : Option String)
        → Q (connects token device) (connect token device s)
    pub send_keeps : (kind : String) (payload : P) → Q (sends kind payload) (send kind payload s)
    pub destroy_keeps : Q destroys (destroy s)
    pub open_keeps :
        (i : ℕ)
        → s.ready i ≡ ws_connecting
        → Q (opened i) (on_open (record s { ready = update s.ready i ws_open }))
    pub close_keeps :
        (i : ℕ) → Q (closes i) (on_close (record s { ready = update s.ready i ws_closed }))
    pub detached_keeps :
        (i : ℕ)
        → s.attached i ≡ false
        → Q (closes i) (record s { ready = update s.ready i ws_closed })
    pub message_keeps :
        (i : ℕ) (m : String × P)
        → Q (received i (some m)) (record s { handled = s.handled ++ m ∷ [] })
    pub reconnect_keeps :
        (d : ℕ)
        → s.reconnect_timer ≡ some d
        → Q reconnect_fires
            (connect s.current_token s.current_device_id (record s { reconnect_timer = none }))
    pub heartbeat_keeps : (j : ℕ) → open_ws s ≡ some j → Q heartbeat_fires (transmit j ping s)

  module _ {ℓ} (Q : Event P → Socket P → Type ℓ) (s : Socket P) (k : Keeps Q s) where
    opens_at-Keeps : (r : ReadyState) (i : ℕ) → s.ready i ≡ r → Q (opened i) (opens_at r i s)
    opens_at-Keeps ws_connecting i e = k.open_keeps i e
    opens_at-Keeps _ i e = k.idle (opened i) refl

    closed-Keeps : (i : ℕ) (b : Bool) → s.attached i ≡ b → Q (closes i) (closes_at ws_open i s)
    closed-Keeps i true e = rw e (k.close_keeps i)
    closed-Keeps i false e = rw e (k.detached_keeps i e)

    closes_at-Keeps : (r : ReadyState) (i : ℕ) → Q (closes i) (closes_at r i s)
    closes_at-Keeps ws_closed i = k.idle (closes i) refl
    closes_at-Keeps _ i = closed-Keeps i (s.attached i) refl

    message-Keeps : (i : ℕ) (m : Option (String × P)) → Q (received i m) (on_message m s)
    unfolding on_message
    message-Keeps i none = k.idle (received i none) refl
    message-Keeps i (some m) = k.message_keeps i m

    receives_at-Keeps :
        (r : ReadyState) (i : ℕ) (m : Option (String × P)) → Q (received i m) (receives_at r i m s)
    receives_at-Keeps ws_open i m = elim (Bool-cases (s.attached i)) [
      | inl e ↦ rw e (message-Keeps i m)
      | inr e ↦ rw e (k.idle (received i m) refl)
    ]
    receives_at-Keeps _ i m = k.idle (received i m) refl

    reconnect_due-Keeps :
        (o : Option ℕ) → s.reconnect_timer ≡ o → Q reconnect_fires (reconnect_due o s)
    unfolding reconnect_due
    reconnect_due-Keeps none e = k.idle reconnect_fires refl
    reconnect_due-Keeps (some d) e = k.reconnect_keeps d e

    heartbeat_due-Keeps : (b : Bool) → Q heartbeat_fires (heartbeat_due b s)
    unfolding heartbeat_due
    heartbeat_due-Keeps false = k.idle heartbeat_fires refl
    heartbeat_due-Keeps true = elim (Option-cases (open_ws s)) [
      | inl e ↦ rw (e, heartbeat_due) (k.idle heartbeat_fires refl)
      | inr (j, e) ↦ rw (e, heartbeat_due) (k.heartbeat_keeps j e)
    ]

    pub step-Keeps : (e : Event P) → Q e (step e s)
    unfolding step
    step-Keeps (connects token device) = k.connect_keeps token device
    step-Keeps (sends kind payload) = k.send_keeps kind payload
    step-Keeps destroys = k.destroy_keeps
    step-Keeps (opened i) = opens_at-Keeps (s.ready i) i refl
    step-Keeps (received i m) = receives_at-Keeps (s.ready i) i m
    step-Keeps (closes i) = closes_at-Keeps (s.ready i) i
    step-Keeps reconnect_fires = reconnect_due-Keeps s.reconnect_timer refl
    step-Keeps heartbeat_fires = heartbeat_due-Keeps s.heartbeat_timer

  sends_auth :
      (s t : Socket P) (j : ℕ)
      → s.ws ≡ some j
      → send_auth s ≡ some t
      → (t ≡ s) ⊎ ((open_ws s ≡ some j) × (t ≡ transmit j (auth s.current_token) s))
  unfolding send_auth
  sends_auth s t j w e = ground arith

  -- `onopen` sends AUTH on the open socket, or nothing.
  pub send_auth_cases :
      (s t : Socket P)
      → send_auth s ≡ some t
      → (t ≡ s) ⊎ ((j : ℕ) × (open_ws s ≡ some j) × (t ≡ transmit j (auth s.current_token) s))
  unfolding send_auth
  send_auth_cases s t e = elim (Option-cases s.ws) [
    | inl w ↦ inl (ground arith)
    | inr (j, w) ↦ elim (sends_auth s t j w e) [ inl h ↦ inl h | inr (o, h) ↦ inr (j, o, h) ]
  ]

  sends_auth_token :
      (s t : Socket P) (j : ℕ)
      → s.ws ≡ some j
      → truthy s.current_token ≡ true
      → send_auth s ≡ some t
      → ((open_ws s ≡ none) × (t ≡ s))
        ⊎ ((open_ws s ≡ some j) × (t ≡ transmit j (auth s.current_token) s))
  unfolding send_auth
  sends_auth_token s t j w h e = ground arith

  -- With a token, AUTH goes out whenever the current socket is open and nothing is thrown.
  pub send_auth_token :
      (s t : Socket P)
      → truthy s.current_token ≡ true
      → send_auth s ≡ some t
      → ((open_ws s ≡ none) × (t ≡ s))
        ⊎ ((j : ℕ) × (open_ws s ≡ some j) × (t ≡ transmit j (auth s.current_token) s))
  unfolding send_auth
  send_auth_token s t h e = elim (Option-cases s.ws) [
    | inl w ↦ inl (ground arith)
    | inr (j, w) ↦ elim (sends_auth_token s t j w h e) [
      | inl r ↦ inl r
      | inr (o, sent) ↦ inr (j, o, sent)
    ]
  ]
