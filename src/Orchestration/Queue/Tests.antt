-- ===== src/Orchestration/Queue/Tests.antt =====
-- The queues of the conversations at concrete inputs.
use ep2pchat.Base.{◌≡◌, refl, none, some, arith, string_dec, ℕ_discrete}
use ep2pchat.Base.Dict.{lookup, insert}
use ep2pchat.Orchestration.Queue.{
  running, settled, Queues, no_queues, queue_message, set_phase, arrives, starts, finishes, Reaches,
  here, then,
}
use ep2pchat.Orchestration.Queue.Ordered.{started-settled}
use ep2pchat.Orchestration.Queue.Drained.{Settles, queues-Settles}

abbrev two_calls : Queues
two_calls = queue_message (some "bob") none (queue_message (some "bob") none no_queues)

two_calls-Reaches : Reaches no_queues two_calls
two_calls-Reaches = then (then here (arrives (some "bob") none)) (arrives (some "bob") none)

abbrev second_starts : Queues
second_starts = set_phase 1 running (set_phase 0 settled (set_phase 0 running two_calls))

second_starts-Reaches : Reaches no_queues second_starts
unfolding string_dec lookup insert ℕ_discrete
second_starts-Reaches =
    then
      (then (then two_calls-Reaches (starts 0 (omega arith) refl tt))
        (finishes 0 (omega arith) refl))
      (starts 1 (omega arith) refl refl)

started-settled_example : (second_starts.jobs 0).phase ≡ settled
unfolding string_dec lookup insert ℕ_discrete
started-settled_example =
    started-settled 0 1 second_starts-Reaches (omega arith) (omega arith) refl (λ e. cc)

queues-Settles_example : Settles two_calls 1
unfolding string_dec
queues-Settles_example = queues-Settles 1 two_calls-Reaches (omega arith)
