-- ===== src/Socket/Doubled.antt =====
-- socket.ts, `connect` on an object that is connected: what the old socket's `onclose` leads to.
use ep2pchat.Base.{ℕ, suc, ◌≡◌, ◌≢◌, true, false, none, some}
use ep2pchat.Socket.{Socket, ws_open, ws_connecting}

module _ {P : Type 0} where
  -- What `onopen` leaves as it was.
  record Same (s t : Socket P) : Type 0 where
    ws : t.ws ≡ s.ws
    ready : t.ready ≡ s.ready
    attached : t.attached ≡ s.attached
    disabled : t.disabled ≡ s.disabled
    timer : t.reconnect_timer ≡ s.reconnect_timer
    made : t.made ≡ s.made

  -- The object uses the socket `j`, which is open; `i` is another one that is open, and both have
  -- their handlers.
  pub record IsDoubled (i j : ℕ) (s : Socket P) : Type 0 where
    pub apart : i ≢ j
    pub current : s.ws ≡ some j
    pub old_open : s.ready i ≡ ws_open
    pub old_listens : s.attached i ≡ true
    pub new_open : s.ready j ≡ ws_open
    pub new_listens : s.attached j ≡ true
    pub enabled : s.disabled ≡ false
    pub calm : s.reconnect_timer ≡ none

  -- What `connect` leaves, with the number of its socket.
  record IsFresh (s c : Socket P) : Type 0 where
    current : c.ws ≡ some s.made
    starts : c.ready s.made ≡ ws_connecting
    listens : c.attached s.made ≡ true
    old_ready : (i : ℕ) → i ≢ s.made → c.ready i ≡ s.ready i
    old_attached : (i : ℕ) → i ≢ s.made → c.attached i ≡ s.attached i
    enabled : c.disabled ≡ false
    calm : c.reconnect_timer ≡ none
    next : c.made ≡ suc s.made
