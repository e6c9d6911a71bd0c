-- ===== src/Socket/Backoff.antt =====
-- socket.ts, `scheduleReconnect`: the delays of an outage.
use native.Mathlib.Nat.{pow-suc}
use ep2pchat.Base.{
  ℕ, zero, suc, ◌+◌, ◌*◌, ◌^◌, min, ◌≡◌, subst, ◌⊎◌, true, false, none, some, List, [], ◌∷◌, arith,
}
use ep2pchat.Socket.{Socket, ws_connecting, ws_open, connect, on_close}
use ep2pchat.Socket.Events.{Event, closes, reconnect_fires, reconnect_due, step, run}

-- The delay before the n-th attempt after the connection was lost.
abbrev pub delay : ℕ → ℕ
delay n = min (1000 * 2 ^ n) 30000

delay-suc : (n : ℕ) → min (delay n * 2) 30000 ≡ delay (suc n)
delay-suc n = omega (arith, pow-suc 2 n)

module _ {P : Type 0} where
  -- Each attempt makes the next socket, which closes without having opened.
  pub retries : ℕ → ℕ → List (Event P)
  retries m zero = []
  retries m (suc n) = reconnect_fires ∷ closes m ∷ retries (suc m) n

  -- A reconnection is pending with delay `d`; the next delay is `b` and the next socket `m`.
  pub record IsWaiting (m d b : ℕ) (s : Socket P) : Type 0 where
    pub enabled : s.disabled ≡ false
    pub timed : s.reconnect_timer ≡ some d
    pub next : s.backoff_ms ≡ b
    pub fresh : s.made ≡ m

  -- The socket `i` may still close; no reconnection is pending.
  pub record IsUp (i : ℕ) (s : Socket P) : Type 0 where
    pub alive : (s.ready i ≡ ws_open) ⊎ (s.ready i ≡ ws_connecting)
    pub listening : s.attached i ≡ true
    pub enabled : s.disabled ≡ false
    pub calm : s.reconnect_timer ≡ none

  closes-IsWaiting :
      (i b : ℕ) (s : Socket P)
      → s.backoff_ms ≡ b
      → IsUp i s
      → IsWaiting s.made b (min (b * 2) 30000) (step (closes i) s)
  unfolding step on_close
  closes-IsWaiting i b s e u = ground arith

  module _ (m d b : ℕ) (s : Socket P) (w : IsWaiting m d b s) where
    redial-IsUp : IsUp m (step reconnect_fires s)
    unfolding step reconnect_due connect
    redial-IsUp = ground arith

    redial-backoff_ms : (step reconnect_fires s).backoff_ms ≡ b
    unfolding step reconnect_due connect
    redial-backoff_ms = ground arith

    redial-made : (step reconnect_fires s).made ≡ suc m
    unfolding step reconnect_due connect
    redial-made = ground arith

    retry-IsWaiting :
        IsWaiting (suc m) b (min (b * 2) 30000) (step (closes m) (step reconnect_fires s))
    retry-IsWaiting =
        subst (λ n. IsWaiting n b (min (b * 2) 30000) (step (closes m) (step reconnect_fires s)))
          redial-made (closes-IsWaiting m b (step reconnect_fires s) redial-backoff_ms redial-IsUp)

  retries-IsWaiting :
      (n k c m : ℕ) (s : Socket P)
      → c ≡ k + n
      → IsWaiting m (delay k) (delay (suc k)) s
      → (m' : ℕ) × IsWaiting m' (delay c) (delay (suc c)) (run (retries m n) s)
  unfolding retries run
  retries-IsWaiting zero k c m s e w = let same : c ≡ k = omega arith in (m, rw same w)
  retries-IsWaiting (suc n) k c m s e w =
      retries-IsWaiting n (suc k) c (suc m) (step (closes m) (step reconnect_fires s)) (omega arith)
        (rw (delay-suc (suc k)) at (retry-IsWaiting m (delay k) (delay (suc k)) s w))

  -- When the connection is lost and n attempts fail, the next one is made after
  -- min(1000 * 2^n, 30000) milliseconds.
  pub outage-delay :
      (i n : ℕ) (s : Socket P)
      → IsUp i s
      → s.backoff_ms ≡ 1000
      → (run (closes i ∷ retries s.made n) s).reconnect_timer ≡ some (delay n)
  unfolding run
  outage-delay i n s u b =
      (retries-IsWaiting n 0 n s.made (step (closes i) s) (omega arith)
        (closes-IsWaiting i 1000 s b u)).1.timed
