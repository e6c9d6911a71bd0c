-- ===== src/Socket/Tests.antt =====
-- Runs of the socket model, and the theorems at concrete inputs.
use ep2pchat.Base.{
  update, ℕ, ◌≡◌, refl, inl, true, false, none, some, List, [], ◌∷◌, map, arith, string_dec,
  ℕ_discrete,
}
use ep2pchat.Socket.{
  Socket, auth, ping, msg, connected, connecting, reconnecting, ws_open, ws_closed, new_socket,
  connect, send, destroy, on_open, on_close, send_auth, flush_queue, start_heartbeat,
  ConnectionState-discrete,
}
use ep2pchat.Socket.Events.{
  Event, connects, sends, destroys, opened, closes, reconnect_fires, heartbeat_fires, step, run,
  on_message, reconnect_due, heartbeat_due,
}
use ep2pchat.Socket.Timers.{IsSound, new_socket-IsSound, run-IsSound}
use ep2pchat.Socket.Backoff.{retries, outage-delay}
use ep2pchat.Socket.Reconnect.{reconnect-delivers}
use ep2pchat.Socket.Pending.{messages, pending}
use ep2pchat.Socket.Notify.{IsTold, run-IsTold}
use ep2pchat.Socket.Delivery.{run-pending}
use ep2pchat.Socket.Auth.{auth_before_all}
use ep2pchat.Socket.First.{first_on, auth_first}

-- All that a run computes with.
opened_up : Unit {0}
unfolding run step connect send destroy on_open on_close on_message reconnect_due heartbeat_due
    send_auth flush_queue start_heartbeat ConnectionState-discrete string_dec ℕ_discrete
opened_up = tt

abbrev session : List (Event ℕ)
session =
    connects "jwt" (some "dev")
    ∷ sends "MESSAGE_SEND" 1
    ∷ opened 0
    ∷ sends "MESSAGE_ACK" 2
    ∷ heartbeat_fires
    ∷ closes 0
    ∷ sends "MESSAGE_READ" 3
    ∷ reconnect_fires
    ∷ opened 1
    ∷ []

session_wire :
    (run session new_socket).wire
    ≡ (0, auth "jwt")
      ∷ (0, msg "MESSAGE_SEND" 1)
      ∷ (0, msg "MESSAGE_ACK" 2)
      ∷ (0, ping)
      ∷ (1, auth "jwt")
      ∷ (1, msg "MESSAGE_READ" 3)
      ∷ []
unfolding opened_up
session_wire = refl

session_notified :
    (run session new_socket).notified
    ≡ connecting ∷ connected ∷ reconnecting ∷ connecting ∷ connected ∷ []
unfolding opened_up
session_notified = refl

-- What was queued when the user logged out is gone; what is queued after that goes out at the
-- next connection.
destroy_drops :
    (run {P = ℕ}
      (connects "jwt" none
        ∷ sends "A" 1
        ∷ destroys
        ∷ sends "B" 2
        ∷ connects "new" none
        ∷ opened 1
        ∷ [])
      new_socket).wire
    ≡ (1, auth "new") ∷ (1, msg "B" 2) ∷ []
unfolding opened_up
destroy_drops = refl

-- Two sockets, both open: the second `connect` did not close the first.
abbrev doubled : Socket ℕ
doubled = record new_socket {
  ws = some 1;
  current_token = "jwt";
  state = connected;
  heartbeat_timer = true;
  made = 2;
  ready = update (update (λ _. ws_closed) 0 ws_open) 1 ws_open;
  attached = update (update (λ _. false) 0 true) 1 true;
  wire = (0, auth "jwt") ∷ (1, auth "jwt") ∷ [];
}

run-pending_example :
    pending (run session new_socket)
    ≡ msg "MESSAGE_SEND" 1 ∷ msg "MESSAGE_ACK" 2 ∷ msg "MESSAGE_READ" 3 ∷ []
run-pending_example = run-pending session new_socket tt (ground arith)

run-IsSound_example : IsSound (run session new_socket)
run-IsSound_example = run-IsSound session new_socket new_socket-IsSound

run-IsTold_example : IsTold (run session new_socket)
run-IsTold_example = run-IsTold session new_socket (record { last = refl; changes = tt })

auth_before_all_example :
    auth_first {P = ℕ}
      (first_on 0 (run (opened 0 ∷ sends "A" 1 ∷ []) (connect "jwt" none new_socket)).wire)
    ≡ true
unfolding string_dec
auth_before_all_example = auth_before_all "jwt" none (opened 0 ∷ sends "A" 1 ∷ []) 0 refl

outage-delay_example : (run (closes 1 ∷ retries 2 6) doubled).reconnect_timer ≡ some 30000
unfolding ℕ_discrete
outage-delay_example =
    outage-delay 1 6 doubled
      (record { alive = inl refl; listening = refl; enabled = refl; calm = refl }) refl

-- Connected once, as after a sign-in; the end of the onboarding connects again.
abbrev signed_in : Socket ℕ
unfolding run step connect on_open send_auth flush_queue start_heartbeat ConnectionState-discrete
    string_dec ℕ_discrete
signed_in = run (connects "jwt" none ∷ opened 0 ∷ []) new_socket

-- The connection is lost with a message in the queue, and the reconnection is due.
abbrev lost : Socket ℕ
lost = record new_socket {
  current_token = "jwt";
  reconnect_timer = some 1000;
  backoff_ms = 2000;
  outbound_queue = msg "MESSAGE_READ" 3 ∷ [];
  made = 1;
  wire = (0, auth "jwt") ∷ (0, msg "MESSAGE_SEND" 1) ∷ [];
}

reconnect-delivers_example :
    let t = run (reconnect_fires ∷ opened 1 ∷ []) lost in
    (t.state ≡ connected)
    × (t.outbound_queue ≡ [])
    × (messages (map (λ f. f.1) t.wire) ≡ msg "MESSAGE_SEND" 1 ∷ msg "MESSAGE_READ" 3 ∷ [])
unfolding string_dec
reconnect-delivers_example = reconnect-delivers lost 1000 refl refl tt
