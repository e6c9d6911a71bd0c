-- ===== src/Socket.antt =====
-- apps/desktop/src/infrastructure/socket.ts: the class TrustlineSocket. The browser's WebSocket
-- objects are numbered in the order of their construction; `ready` is their readyState, `attached`
-- says that their onclose and onmessage handlers are still set, and `wire` is all that they were
-- handed to send. Socket/Events has the callbacks and the timers as events.
mod Flush
pub mod Cases
pub mod Timers
mod First
pub mod Auth
pub mod Notify
pub mod Stale
pub mod Doubled
pub mod Tests
pub mod Backoff
pub mod Pending
pub mod Delivery
pub mod Events
pub mod Reconnect
use ep2pchat.Base.{
  update, ℕ, suc, ◌*◌, min, String, ite, Bool, true, false, Option, none, some, List, [], ◌∷◌, ◌++◌,
  truthy, ℕ_discrete, if◌then◌else◌, is_some,
}

pub data ConnectionState : Type 0 where
  connecting connected disconnected reconnecting : ConnectionState

-- `WebSocket.readyState`.
pub data ReadyState : Type 0 where
  ws_connecting ws_open ws_closing ws_closed : ReadyState

-- What `JSON.stringify` is applied to: the AUTH message, a heartbeat, or a caller's message.
pub data Frame (P : Type 0) : Type 0 where
  auth : String → Frame P
  ping : Frame P
  msg : String → P → Frame P

abbrev pub backoff_initial_ms : ℕ
backoff_initial_ms = 1000

abbrev pub backoff_max_ms : ℕ
backoff_max_ms = 30000

abbrev pub backoff_multiplier : ℕ
backoff_multiplier = 2

pub record Socket (P : Type 0) : Type 0 where
  pub ws : Option ℕ
  pub current_token : String
  pub disabled : Bool
  -- the delay for which the pending reconnect timer was set
  pub reconnect_timer : Option ℕ
  pub heartbeat_timer : Bool
  pub current_device_id : Option String
  pub backoff_ms : ℕ
  pub state : ConnectionState
  pub outbound_queue : List (Frame P)
  -- the calls of the state handlers, and of the message handlers with a parsed message
  pub notified : List ConnectionState
  pub handled : List (String × P)
  -- the browser's side
  pub made : ℕ
  pub ready : ℕ → ReadyState
  pub attached : ℕ → Bool
  pub wire : List (ℕ × Frame P)

pub ConnectionState-discrete : Discrete ConnectionState
ConnectionState-discrete = hlevel

-- The number of `this.ws`, if it is set and its readyState is OPEN.
abbrev open_among : Option ℕ → (ℕ → ReadyState) → Option ℕ
open_among none ready = none
open_among (some j) ready = elim (ready j) [ ws_open ↦ some j | _ ↦ none ]

module _ {P : Type 0} where
  -- The class's initial fields; no socket has been made.
  abbrev pub new_socket : Socket P
  new_socket = record {
    ws = none;
    current_token = "";
    disabled = false;
    reconnect_timer = none;
    heartbeat_timer = false;
    current_device_id = none;
    backoff_ms = backoff_initial_ms;
    state = disconnected;
    outbound_queue = [];
    notified = [];
    handled = [];
    made = 0;
    ready = λ _. ws_closed;
    attached = λ _. false;
    wire = [];
  }

  abbrev pub open_ws : Socket P → Option ℕ
  open_ws s = open_among s.ws s.ready

  -- `ws.send` on an OPEN socket.
  abbrev pub transmit : ℕ → Frame P → Socket P → Socket P
  transmit j f s = record s { wire = s.wire ++ (j, f) ∷ [] }

  pub set_state : ConnectionState → Socket P → Socket P
  set_state c s =
      ite (ConnectionState-discrete s.state c) s
        (record s { state = c; notified = s.notified ++ c ∷ [] })

  pub stop_heartbeat : Socket P → Socket P
  stop_heartbeat s = record s { heartbeat_timer = false }

  pub start_heartbeat : Socket P → Socket P
  unfolding stop_heartbeat
  start_heartbeat s = record (stop_heartbeat s) { heartbeat_timer = true }

  pub clear_timers : Socket P → Socket P
  unfolding stop_heartbeat
  clear_timers s = stop_heartbeat (record s { reconnect_timer = none })

  -- The loop of `flushQueue`: shift and send, until the queue is empty.
  abbrev drain : ℕ → List (Frame P) → Socket P → Socket P
  drain j [] s = record s { outbound_queue = [] }
  drain j (f ∷ fs) s = drain j fs (transmit j f (record s { outbound_queue = fs }))

  abbrev drain_to : Option ℕ → Socket P → Socket P
  drain_to none s = s
  drain_to (some j) s = drain j s.outbound_queue s

  pub flush_queue : Socket P → Socket P
  flush_queue s = drain_to (open_ws s) s

  abbrev detach : Option ℕ → Socket P → Socket P
  detach none s = s
  detach (some j) s = record s {
    ws = none;
    attached = update s.attached j false;
    ready = update s.ready j ws_closing;
  }

  pub destroy : Socket P → Socket P
  unfolding set_state clear_timers
  destroy s =
      let s1 = clear_timers (record s { disabled = true }) in
      set_state disconnected (record (detach s.ws s1) { outbound_queue = [] })

  -- The new socket is CONNECTING, and its handlers are set.
  pub connect : String → Option String → Socket P → Socket P
  unfolding set_state clear_timers
  connect token device s =
      let s1 = record s {
        disabled = false;
        current_token = if truthy token then token else s.current_token;
        current_device_id = device;
      } in
      let s2 = set_state connecting (clear_timers s1) in
      record s2 {
        ws = some s2.made;
        made = suc s2.made;
        ready = update s2.ready s2.made ws_connecting;
        attached = update s2.attached s2.made true;
      }

  pub send : String → P → Socket P → Socket P
  send kind payload s = elim (open_ws s) [
    | some j ↦ transmit j (msg kind payload) s
    | none ↦ record s { outbound_queue = s.outbound_queue ++ msg kind payload ∷ [] }
  ]

  pub schedule_reconnect : Socket P → Socket P
  unfolding set_state
  schedule_reconnect s =
      if s.disabled
      then s
      else if is_some s.reconnect_timer
      then s
      else let s1 = set_state reconnecting s in
        record s1 {
          reconnect_timer = some s1.backoff_ms;
          backoff_ms = min (s1.backoff_ms * backoff_multiplier) backoff_max_ms;
        }

  -- `this.ws?.send(AUTH)` is not guarded by readyState: on a CONNECTING socket it throws, which is
  -- `none`; on a closing or closed one it discards the frame.
  pub send_auth : Socket P → Option (Socket P)
  send_auth s =
      if truthy s.current_token
      then elim s.ws [
        | none ↦ some s
        | some j ↦ elim (s.ready j) [
          | ws_connecting ↦ none
          | ws_open ↦ some (transmit j (auth s.current_token) s)
          | _ ↦ some s
        ]
      ]
      else some s

  -- The handler `onopen`, of whichever socket; it works on `this.ws`.
  pub on_open : Socket P → Socket P
  on_open s =
      let s1 = record s { backoff_ms = backoff_initial_ms } in
      elim (send_auth s1) [
        | none ↦ s1
        | some s2 ↦ start_heartbeat (flush_queue (set_state connected s2))
      ]

  pub on_close : Socket P → Socket P
  unfolding stop_heartbeat schedule_reconnect
  on_close s = schedule_reconnect (stop_heartbeat (record s { ws = none }))
