-- ===== src/Orchestration/Queue.antt =====
-- crypto_orchestration.ts, `incomingMessageQueue`: for each conversation the promise of the last
-- call, to which the next call's work is chained. The promises are numbered in the order of their
-- calls. A call's work runs between `starts` and `finishes`, with other events in between; its
-- `catch` makes the promise settle in any case.
pub mod Chained
pub mod Ordered
pub mod Drained
pub mod Tests
use ep2pchat.Base.{
  ℕ, suc, ◌<◌, ◌≡◌, ite, ℕ_discrete, String, Option, none, some, List, [], ◌∷◌, if◌then◌else◌,
  or_text, truthy, update,
}
use ep2pchat.Base.Dict.{lookup, insert}

pub data Phase : Type 0 where
  waiting running settled : Phase

pub record Job : Type 0 where
  pub conversation : String
  -- the promise that `then` was called on; `none` is `Promise.resolve()`
  pub after : Option ℕ
  pub phase : Phase

pub record Queues : Type 0 where
  pub incoming_message_queue : List (String × ℕ)
  pub jobs : ℕ → Job
  pub made : ℕ

abbrev pub no_job : Job
no_job = record { conversation = ""; after = none; phase = settled }

abbrev pub no_queues : Queues
no_queues = record { incoming_message_queue = []; jobs = λ i. no_job; made = 0 }

abbrev pub new_job : String → Queues → Job
new_job c s = record {
  conversation = c;
  after = lookup c s.incoming_message_queue;
  phase = waiting;
}

-- `incomingMessageQueue[conversationId] = currentQueue.then(…).catch(…)`
abbrev pub enqueue : String → Queues → Queues
enqueue c s = record {
  incoming_message_queue = insert c s.made s.incoming_message_queue;
  jobs = update s.jobs s.made (new_job c s);
  made = suc s.made;
}

abbrev pub enqueue_for : Option String → Queues → Queues
enqueue_for none s = s
enqueue_for (some c) s = if truthy c then enqueue c s else s

-- A call of `processIncomingMessage` up to its `return`.
abbrev pub queue_message : Option String → Option String → Queues → Queues
queue_message sender active_contact_id s = enqueue_for (or_text sender active_contact_id) s

abbrev pub set_phase : ℕ → Phase → Queues → Queues
set_phase i p s = record s { jobs = update s.jobs i (record (s.jobs i) { phase = p }) }

-- The promise that a job waits for is settled.
abbrev pub IsFree : Queues → Option ℕ → Type 0
IsFree s none = Unit
IsFree s (some i) = (s.jobs i).phase ≡ settled

-- One turn of the event loop.
pub data Turn (s : Queues) : Queues → Type 0 where
  arrives :
      (sender active_contact_id : Option String) → Turn s (queue_message sender active_contact_id s)
  starts :
      (i : ℕ)
      → i < s.made
      → (s.jobs i).phase ≡ waiting
      → IsFree s (s.jobs i).after
      → Turn s (set_phase i running s)
  finishes : (i : ℕ) → i < s.made → (s.jobs i).phase ≡ running → Turn s (set_phase i settled s)

pub data Reaches (s : Queues) : Queues → Type 0 where
  here : Reaches s s
  then : {t u : Queues} → Reaches s t → Turn t u → Reaches s u
