-- ===== src/Socket/Stale.antt =====
-- socket.ts, `connect`: it leaves the old socket open with its handlers set, so that the old
-- socket's `onclose` works on the new one.
use ep2pchat.Base.{ℕ, ◌≡◌, ◌≢◌, String, true, false, Option, none, some, arith}
use ep2pchat.Socket.{Socket, ws_open, on_close, connect}
use ep2pchat.Socket.Events.{closes, step}

module _ {P : Type 0} where
  -- `connect` neither closes nor detaches the socket that is in use.
  pub connect_abandons :
      (token : String) (device : Option String) (i : ℕ) (s : Socket P)
      → i ≢ s.made
      → (s.ws ≡ some i)
      → s.ready i ≡ ws_open
      → s.attached i ≡ true
      → ((connect token device s).ready i ≡ ws_open)
        × ((connect token device s).attached i ≡ true)
        × ((connect token device s).ws ≡ some s.made)
  unfolding connect
  connect_abandons token device i s n w r a = ground arith

  -- When an older socket `i` closes while `j` is in use and open, the client loses `j`: no socket
  -- is set, the heartbeat stops and a reconnection is due, but `j` stays open with its handlers.
  pub stale_close :
      (i j : ℕ) (s : Socket P)
      → i ≢ j
      → s.ws ≡ some j
      → s.ready j ≡ ws_open
      → s.attached j ≡ true
      → s.ready i ≡ ws_open
      → s.attached i ≡ true
      → s.disabled ≡ false
      → s.reconnect_timer ≡ none
      → let t = step (closes i) s in
        (t.ws ≡ none)
        × (t.heartbeat_timer ≡ false)
        × (t.reconnect_timer ≡ some s.backoff_ms)
        × (t.ready j ≡ ws_open)
        × (t.attached j ≡ true)
  unfolding step on_close
  stale_close i j s n w r a q b d t = ground arith
