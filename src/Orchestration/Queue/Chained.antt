-- ===== src/Orchestration/Queue/Chained.antt =====
-- crypto_orchestration.ts, `incomingMessageQueue`: how the promises of a conversation are linked.
use ep2pchat.Base.{
  ℕ, suc, ◌<◌, ◌≤◌, ◌≡◌, ◌≢◌, sym, ap, ◌∙◌, ite, ℕ_discrete, String, Option, none, some, [], truthy,
  Bool-cases, inl, inr, or_text, if_pos, if_neg, arith, string_dec, Option-cases, if-true, if-false,
}
use ep2pchat.Base.Dict.{lookup, lookup-insert}
use ep2pchat.Orchestration.Queue.{
  Phase, waiting, running, settled, Queues, no_queues, new_job, enqueue, enqueue_for, set_phase,
  IsFree, Turn, arrives, starts, finishes, Reaches, here, then,
}

abbrev pub IsUpTo : Option ℕ → ℕ → Type 0
IsUpTo none i = ⊥
IsUpTo (some l) i = i ≤ l

-- The queue of a conversation names its last job; a job waits for the one before it of the same
-- conversation, and has started only if that one is settled.
pub record IsChained (s : Queues) : Type 0 where
  pub last :
      (c : String) (l : ℕ)
      → lookup c s.incoming_message_queue ≡ some l
      → (l < s.made) × ((s.jobs l).conversation ≡ c)
  pub none_after :
      (i : ℕ) → i < s.made → IsUpTo (lookup (s.jobs i).conversation s.incoming_message_queue) i
  pub before :
      (j p : ℕ)
      → j < s.made
      → (s.jobs j).after ≡ some p
      → (p < j) × ((s.jobs p).conversation ≡ (s.jobs j).conversation)
  pub none_between :
      (i j : ℕ)
      → j < s.made
      → i < j
      → (s.jobs i).conversation ≡ (s.jobs j).conversation
      → IsUpTo (s.jobs j).after i
  pub free : (j : ℕ) → j < s.made → (s.jobs j).phase ≢ waiting → IsFree s (s.jobs j).after

module _ (s : Queues) (h : IsChained s) (c : String) where
  abbrev t : Queues
  t = enqueue c s

  -- A job is the new one, or as it was.
  data Slot (i : ℕ) : Type 0 where
    new : i ≡ s.made → t.jobs i ≡ new_job c s → Slot i
    old : i < s.made → t.jobs i ≡ s.jobs i → Slot i

  slot : (i : ℕ) → i < suc s.made → Slot i
  slot i lt = elim (ℕ_discrete s.made i) [
    | yes e ↦ new (sym e) (if_pos (ℕ_discrete s.made i) e _ _)
    | no n ↦ old (omega arith) (if_neg (ℕ_discrete s.made i) n _ _)
  ]

  looked_up :
      (d : String)
      → lookup d t.incoming_message_queue
        ≡ ite (string_dec c d) (some s.made) (lookup d s.incoming_message_queue)
  looked_up d = lookup-insert c d s.made s.incoming_message_queue

  enqueue-last :
      (d : String) (l : ℕ)
      → lookup d t.incoming_message_queue ≡ some l
      → (l < t.made) × ((t.jobs l).conversation ≡ d)
  enqueue-last d l e = ground (arith, looked_up d, h.last d l)

  enqueue-none_after :
      (i : ℕ) → i < t.made → IsUpTo (lookup (t.jobs i).conversation t.incoming_message_queue) i
  enqueue-none_after i lt = elim (slot i lt) [
    | new e f ↦ ground (arith, looked_up c)
    | old e f ↦ ground (arith, looked_up (s.jobs i).conversation, h.none_after i e)
  ]

  enqueue-before :
      (j p : ℕ)
      → j < t.made
      → (t.jobs j).after ≡ some p
      → (p < j) × ((t.jobs p).conversation ≡ (t.jobs j).conversation)
  enqueue-before j p lt e = ground (arith, h.before j p, h.last c p)

  enqueue-none_between :
      (i j : ℕ)
      → j < t.made
      → i < j
      → (t.jobs i).conversation ≡ (t.jobs j).conversation
      → IsUpTo (t.jobs j).after i
  enqueue-none_between i j lt le e = elim (slot j lt) [
    | new m f ↦ ground (arith, h.none_after i)
    | old m f ↦ ground (arith, h.none_between i j)
  ]

  enqueue-IsFree : (j : ℕ) → j < t.made → (t.jobs j).phase ≢ waiting → IsFree t (t.jobs j).after
  enqueue-IsFree j lt n = elim (slot j lt) [
    | new m f ↦ absurd (n (ap (λ q. q.phase) f))
    | old m f ↦ elim (Option-cases (s.jobs j).after) [
      | inl a ↦ ground arith
      | inr (p, a) ↦ ground (arith, h.free j, h.before j p)
    ]
  ]

  enqueue-IsChained : IsChained t
  enqueue-IsChained = record {
    last = enqueue-last;
    none_after = enqueue-none_after;
    before = enqueue-before;
    none_between = enqueue-none_between;
    free = enqueue-IsFree;
  }

-- A job starts or finishes.
module _ (s : Queues) (h : IsChained s) (k : ℕ) (q : Phase) where
  kept : (i : ℕ) → ((set_phase k q s).jobs i).conversation ≡ (s.jobs i).conversation
  kept i = ground arith

  kept_after : (i : ℕ) → ((set_phase k q s).jobs i).after ≡ (s.jobs i).after
  kept_after i = ground arith

  pub set_phase-IsChained :
      ((j : ℕ)
        → j < s.made
        → ((set_phase k q s).jobs j).phase ≢ waiting
        → IsFree (set_phase k q s) (s.jobs j).after)
      → IsChained (set_phase k q s)
  set_phase-IsChained f = record {
    last = λ c l e. ground (arith, kept l, h.last c l);
    none_after = λ i lt. rw (kept i) (h.none_after i lt);
    before = λ j p lt e. ground (arith, kept j, kept p, kept_after j, h.before j p);
    none_between =
        λ i j lt le e. rw (kept_after j) (h.none_between i j lt le (sym (kept i) ∙ e ∙ kept j));
    free = λ j lt n. rw (kept_after j) (f j lt n);
  }

module _ (s : Queues) (h : IsChained s) (k : ℕ) where
  starts-IsChained :
      (s.jobs k).phase ≡ waiting → IsFree s (s.jobs k).after → IsChained (set_phase k running s)
  starts-IsChained w f = set_phase-IsChained s h k running λ j lt n.
      elim (Option-cases (s.jobs j).after) [
        | inl a ↦ ground arith
        | inr (p, a) ↦ ground (arith, h.free j)
      ]

  finishes-IsChained : (s.jobs k).phase ≡ running → IsChained (set_phase k settled s)
  finishes-IsChained w = set_phase-IsChained s h k settled λ j lt n.
      elim (Option-cases (s.jobs j).after) [
        | inl a ↦ ground arith
        | inr (p, a) ↦ ground (arith, h.free j)
      ]

enqueue_for-IsChained : (o : Option String) (s : Queues) → IsChained s → IsChained (enqueue_for o s)
enqueue_for-IsChained none s h = h
enqueue_for-IsChained (some c) s h = elim (Bool-cases (truthy c)) [
  | inl e ↦ rw (if-true (truthy c) (enqueue c s) s e) (enqueue-IsChained s h c)
  | inr e ↦ rw (if-false (truthy c) (enqueue c s) s e) h
]

pub Turn-IsChained : {s t : Queues} → Turn s t → IsChained s → IsChained t
Turn-IsChained {s} (arrives sender active) h = enqueue_for-IsChained (or_text sender active) s h
Turn-IsChained {s} (starts i lt w f) h = starts-IsChained s h i w f
Turn-IsChained {s} (finishes i lt w) h = finishes-IsChained s h i w

no_entry : (c : String) (l : ℕ) → lookup {V = ℕ} c [] ≢ some l
unfolding lookup
no_entry c l e = cc

no_queues-IsChained : IsChained no_queues
no_queues-IsChained = record {
  last = λ c l e. absurd (no_entry c l e);
  none_after = λ i lt. absurd (omega arith);
  before = λ j p lt e. absurd (omega arith);
  none_between = λ i j lt le e. absurd (omega arith);
  free = λ j lt n. absurd (omega arith);
}

pub Reaches-IsChained : {s : Queues} → Reaches no_queues s → IsChained s
Reaches-IsChained here = no_queues-IsChained
Reaches-IsChained (then r e) = Turn-IsChained e (Reaches-IsChained r)
