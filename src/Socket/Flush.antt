-- ===== src/Socket/Flush.antt =====
-- socket.ts, `flushQueue`: its loop in closed form.
use ep2pchat.Base.{ℕ, ◌≡◌, Option, none, some, List, [], ◌∷◌, ◌++◌, map, append_assoc, append-nil}
use ep2pchat.Socket.{Socket, Frame, open_ws, transmit, drain, drain_to, flush_queue}

module _ {P : Type 0} where
  abbrev pub tagged : ℕ → List (Frame P) → List (ℕ × Frame P)
  tagged j = map (λ f. (j, f))

  -- What stays in the queue, and what goes on the wire, by the socket that is open.
  abbrev pub kept : Option ℕ → List (Frame P) → List (Frame P)
  kept none q = q
  kept (some j) q = []

  abbrev pub flushed : Option ℕ → List (Frame P) → List (ℕ × Frame P)
  flushed none q = []
  flushed (some j) q = tagged j q

  drain-eq :
      (j : ℕ) (fs : List (Frame P)) (s : Socket P)
      → drain j fs s ≡ record s { outbound_queue = []; wire = s.wire ++ tagged j fs }
  drain-eq j [] s = rw (append-nil s.wire)
  drain-eq j (f ∷ fs) s =
      rw (drain-eq j fs (transmit j f (record s { outbound_queue = fs })))
        (rw (append_assoc s.wire ((j, f) ∷ []) (tagged j fs)))

  drain_to-eq :
      (o : Option ℕ) (s : Socket P)
      → drain_to o s ≡ record s {
        outbound_queue = kept o s.outbound_queue;
        wire = s.wire ++ flushed o s.outbound_queue;
      }
  drain_to-eq none s = rw (append-nil s.wire)
  drain_to-eq (some j) s = drain-eq j s.outbound_queue s

  -- `flushQueue` sends the whole queue in order if the socket is open, and else does nothing.
  pub flush_queue-eq :
      (s : Socket P)
      → flush_queue s ≡ record s {
        outbound_queue = kept (open_ws s) s.outbound_queue;
        wire = s.wire ++ flushed (open_ws s) s.outbound_queue;
      }
  unfolding flush_queue
  flush_queue-eq s = drain_to-eq (open_ws s) s
