-- ===== src/Orchestration/Queue/Ordered.antt =====
-- crypto_orchestration.ts, `incomingMessageQueue`: the calls of a conversation run one at a time and
-- in order.
use ep2pchat.Base.{ℕ, suc, zero, ◌<◌, ◌≡◌, ◌≢◌, arith, Option-cases, inl, inr}
use ep2pchat.Orchestration.Queue.{waiting, settled, Queues, no_queues, Reaches}
use ep2pchat.Orchestration.Queue.Chained.{IsChained, Reaches-IsChained}

module _ (s : Queues) (h : IsChained s) where
  -- By induction on a bound of the later job.
  earlier-settled :
      (n i j : ℕ)
      → j < n
      → j < s.made
      → i < j
      → (s.jobs i).conversation ≡ (s.jobs j).conversation
      → (s.jobs j).phase ≢ waiting
      → (s.jobs i).phase ≡ settled
  earlier-settled zero i j b lt le e w = absurd (omega arith)
  earlier-settled (suc n) i j b lt le e w = elim (Option-cases (s.jobs j).after) [
    | inl a ↦ ground (arith, h.none_between i j)
    | inr (p, a) ↦ ground (arith, h.none_between i j, h.before j p, h.free j, earlier-settled n i p)
  ]

-- In whatever order calls arrive and the event loop runs them, when a call's work has started, every
-- earlier call for the same conversation is settled.
pub started-settled :
    {s : Queues} (i j : ℕ)
    → Reaches no_queues s
    → j < s.made
    → i < j
    → (s.jobs i).conversation ≡ (s.jobs j).conversation
    → (s.jobs j).phase ≢ waiting
    → (s.jobs i).phase ≡ settled
started-settled {s} i j r lt le e w =
    earlier-settled s (Reaches-IsChained r) s.made i j lt lt le e w
