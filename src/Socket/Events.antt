-- ===== src/Socket/Events.antt =====
-- socket.ts: the events of a TrustlineSocket, the calls of its methods and the callbacks of the
-- browser and of the timers.
use ep2pchat.Base.{
  update, ℕ, String, Bool, true, false, Option, none, some, List, [], ◌∷◌, ◌++◌, if◌then◌else◌,
}
use ep2pchat.Socket.{
  Socket, ReadyState, ws_connecting, ws_open, ws_closed, ping, connect, send, destroy, on_open,
  on_close, open_ws, transmit,
}

-- What happens to the object: calls of its methods, and the browser's callbacks. Of a received
-- text the event holds what `JSON.parse` makes of it.
pub data Event (P : Type 0) : Type 0 where
  connects : String → Option String → Event P
  sends : String → P → Event P
  destroys : Event P
  opened : ℕ → Event P
  received : ℕ → Option (String × P) → Event P
  closes : ℕ → Event P
  reconnect_fires : Event P
  heartbeat_fires : Event P

module _ {P : Type 0} where
  unfoldable pub on_message : Option (String × P) → Socket P → Socket P
  on_message none s = s
  on_message (some m) s = record s { handled = s.handled ++ m ∷ [] }

  unfoldable pub reconnect_due : Option ℕ → Socket P → Socket P
  reconnect_due none s = s
  reconnect_due (some _) s =
      let s1 = record s { reconnect_timer = none } in
      connect s1.current_token s1.current_device_id s1

  unfoldable pub heartbeat_due : Bool → Socket P → Socket P
  heartbeat_due false s = s
  heartbeat_due true s = elim (open_ws s) [ some j ↦ transmit j ping s | none ↦ s ]

  -- Only a CONNECTING socket opens, and a closed one does not close again.
  abbrev pub opens_at : ReadyState → ℕ → Socket P → Socket P
  opens_at ws_connecting i s = on_open (record s { ready = update s.ready i ws_open })
  opens_at _ i s = s

  abbrev pub closes_at : ReadyState → ℕ → Socket P → Socket P
  closes_at ws_closed i s = s
  closes_at _ i s =
      let s1 = record s { ready = update s.ready i ws_closed } in
      if s.attached i then on_close s1 else s1

  abbrev pub receives_at : ReadyState → ℕ → Option (String × P) → Socket P → Socket P
  receives_at ws_open i m s = if s.attached i then on_message m s else s
  receives_at _ i m s = s

  unfoldable pub step : Event P → Socket P → Socket P
  unfolding on_message reconnect_due heartbeat_due
  step (connects token device) s = connect token device s
  step (sends kind payload) s = send kind payload s
  step destroys s = destroy s
  step (opened i) s = opens_at (s.ready i) i s
  step (received i m) s = receives_at (s.ready i) i m s
  step (closes i) s = closes_at (s.ready i) i s
  step reconnect_fires s = reconnect_due s.reconnect_timer s
  step heartbeat_fires s = heartbeat_due s.heartbeat_timer s

  unfoldable pub run : List (Event P) → Socket P → Socket P
  run [] s = s
  run (e ∷ es) s = run es (step e s)
