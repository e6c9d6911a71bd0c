-- ===== src/Socket/Reconnect.antt =====
-- socket.ts: what waits in the queue is sent once a reconnection succeeds.
use ep2pchat.Base.{
  update, ℕ, ◌≡◌, ◌≢◌, sym, ap, ◌∙◌, true, inl, inr, none, some, [], ◌∷◌, ◌++◌, append-nil, arith,
  truthy, map, ℕ_discrete,
}
use ep2pchat.Socket.{
  Socket, connected, connect, on_open, send_auth, set_state, open_ws, ws_open, ws_connecting,
  start_heartbeat,
}
use ep2pchat.Socket.Events.{opened, reconnect_fires, step, run, opens_at, reconnect_due}
use ep2pchat.Socket.Cases.{finish, reset, on_open_cases, send_auth_cases}
use ep2pchat.Socket.Flush.{flush_queue-eq, kept}
use ep2pchat.Socket.Pending.{messages, pending, IsDrained}
use ep2pchat.Socket.Delivery.{run-pending}

module _ {P : Type 0} where
  -- The object once its reconnection is due.
  abbrev again : Socket P → Socket P
  again s = connect s.current_token s.current_device_id (record s { reconnect_timer = none })

  abbrev opening : Socket P → Socket P
  opening s = record (again s) { ready = update (again s).ready s.made ws_open }

  again-ready : (s : Socket P) → (again s).ready s.made ≡ ws_connecting
  unfolding connect ℕ_discrete
  again-ready s = ground arith

  run-opening :
      (s : Socket P) (d : ℕ)
      → s.reconnect_timer ≡ some d
      → run (reconnect_fires ∷ opened s.made ∷ []) s ≡ on_open (opening s)
  unfolding run step reconnect_due
  run-opening s d h =
      ap (λ o. step (opened s.made) (reconnect_due o s)) h
      ∙ ap (λ r. opens_at r s.made (again s)) (again-ready s)

  sent_auth : (s : Socket P) → truthy s.current_token ≡ true → open_ws (opening s) ≡ some s.made
  unfolding connect
  sent_auth s h = ground arith

  set_state-connected : (t : Socket P) → (set_state connected t).state ≡ connected
  unfolding set_state
  set_state-connected t = ground arith

  set_state-open : (t : Socket P) → open_ws (set_state connected t) ≡ open_ws t
  unfolding set_state
  set_state-open t = ground arith

  -- A socket that is open, with the token of its AUTH.
  finish-sent :
      (t : Socket P) (j : ℕ)
      → open_ws t ≡ some j
      → ((finish t).state ≡ connected) × ((finish t).outbound_queue ≡ [])
  unfolding start_heartbeat set_state
  finish-sent t j h = rw (flush_queue-eq (set_state connected t)) (
    set_state-connected t,
    ap (λ o. kept o (set_state connected t).outbound_queue) (set_state-open t ∙ h),
  )

  opening-sends : (s : Socket P) → send_auth (reset (opening s)) ≢ none
  unfolding send_auth connect
  opening-sends s e = ground (arith, sent_auth s)

  opened-same :
      (s t : Socket P)
      → send_auth (reset (opening s)) ≡ some t
      → truthy s.current_token ≡ true
      → open_ws t ≡ some s.made
  opened-same s t e h = elim (send_auth_cases (reset (opening s)) t e) [
    | inl q ↦ ap open_ws q ∙ sent_auth s h
    | inr (j, _, q) ↦ ap open_ws q ∙ sent_auth s h
  ]

  on_open-opening :
      (s : Socket P)
      → truthy s.current_token ≡ true
      → ((on_open (opening s)).state ≡ connected) × ((on_open (opening s)).outbound_queue ≡ [])
  on_open-opening s h =
      on_open_cases (λ u. (u.state ≡ connected) × (u.outbound_queue ≡ [])) (opening s)
        (λ e. absurd (opening-sends s e)) (λ t e. finish-sent t s.made (opened-same s t e h))

  -- In a state in which nothing waits behind an open socket, with a token and a reconnection due,
  -- the reconnection that fires and whose socket opens leaves the object connected, nothing in the
  -- queue, and on the wire every message that was there, followed by those that waited, in order.
  pub reconnect-delivers :
      (s : Socket P) (d : ℕ)
      → s.reconnect_timer ≡ some d
      → truthy s.current_token ≡ true
      → IsDrained s
      → let t = run (reconnect_fires ∷ opened s.made ∷ []) s in
        (t.state ≡ connected)
        × (t.outbound_queue ≡ [])
        × (messages (map (λ f. f.1) t.wire) ≡ pending s)
  reconnect-delivers s d r h v =
      let t = run (reconnect_fires ∷ opened s.made ∷ []) s in
      let e = run-opening s d r in
      let o = on_open-opening s h in
      let q : t.outbound_queue ≡ [] = ap (λ (u : Socket P). u.outbound_queue) e ∙ o.1 in
      let all =
        run-pending (reconnect_fires ∷ opened s.made ∷ []) s v (λ x. cc x, (λ x. cc x, tt)) in
      (
        ap (λ (u : Socket P). u.state) e ∙ o.0,
        q,
        sym (append-nil (messages (map (λ f. f.1) t.wire)))
            ∙ ap (λ w. messages (map (λ f. f.1) t.wire) ++ messages w) (sym q)
            ∙ all
            ∙ append-nil (pending s),
      )
