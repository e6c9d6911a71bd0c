-- ===== src/Orchestration/Queue/Drained.antt =====
-- crypto_orchestration.ts, `incomingMessageQueue`: no call waits for ever.
use ep2pchat.Base.{
  ℕ, suc, zero, ◌<◌, ◌≡◌, refl, sym, subst, ◌∙◌, Option, none, some, arith, Option-cases, String,
  Bool-cases, inl, inr, truthy, if-true, if-false, or_text,
}
use ep2pchat.Orchestration.Queue.{
  Phase, waiting, running, settled, Queues, no_queues, enqueue, enqueue_for, set_phase, IsFree,
  Turn, arrives, starts, finishes, Reaches, here, then,
}
use ep2pchat.Orchestration.Queue.Chained.{IsChained, Turn-IsChained, Reaches-IsChained}

pub Reaches-trans : {s t u : Queues} → Reaches s t → Reaches t u → Reaches s u
Reaches-trans p here = p
Reaches-trans p (then q e) = then (Reaches-trans p q) e

-- From `s` the work of job `j` is done without any further call.
pub record Settles (s : Queues) (j : ℕ) : Type 0 where
  pub state : Queues
  pub reach : Reaches s state
  pub done : (state.jobs j).phase ≡ settled
  pub same_made : state.made ≡ s.made
  pub same_after : (state.jobs j).after ≡ (s.jobs j).after
  pub chained : IsChained state

set_phase-phase : (s : Queues) (j : ℕ) (q : Phase) → ((set_phase j q s).jobs j).phase ≡ q
set_phase-phase s j q = ground arith

set_phase-after :
    (s : Queues) (i j : ℕ) (q : Phase) → ((set_phase j q s).jobs i).after ≡ (s.jobs i).after
set_phase-after s i j q = ground arith

module _ (s : Queues) (h : IsChained s) (j : ℕ) (lt : j < s.made) where
  finish_running : (s.jobs j).phase ≡ running → Settles s j
  finish_running r =
      let e : Turn s (set_phase j settled s) = finishes j lt r in
      record {
        state = set_phase j settled s;
        reach = then here e;
        done = set_phase-phase s j settled;
        same_made = refl;
        same_after = set_phase-after s j j settled;
        chained = Turn-IsChained e h;
      }

module _ (s : Queues) (h : IsChained s) (j : ℕ) (lt : j < s.made) where
  finish_free : (q : Phase) → (s.jobs j).phase ≡ q → IsFree s (s.jobs j).after → Settles s j
  finish_free waiting w f =
      let e : Turn s (set_phase j running s) = starts j lt w f in
      let r =
        finish_running (set_phase j running s) (Turn-IsChained e h) j lt
          (set_phase-phase s j running) in
      record {
        state = r.state;
        reach = Reaches-trans (then here e) r.reach;
        done = r.done;
        same_made = r.same_made;
        same_after = r.same_after ∙ set_phase-after s j j running;
        chained = r.chained;
      }
  finish_free running r f = finish_running s h j lt r
  finish_free settled d f = record {
    state = s;
    reach = here;
    done = d;
    same_made = refl;
    same_after = refl;
    chained = h;
  }

enqueue_for-after :
    (o : Option String) (s : Queues) (i : ℕ)
    → i < s.made
    → (((enqueue_for o s).jobs i).after ≡ (s.jobs i).after) × (i < (enqueue_for o s).made)
enqueue_for-after none s i lt = (refl, lt)
enqueue_for-after (some c) s i lt = elim (Bool-cases (truthy c)) [
  | inl e ↦ rw (if-true (truthy c) (enqueue c s) s e) (ground arith, omega arith)
  | inr e ↦ rw (if-false (truthy c) (enqueue c s) s e) (refl, lt)
]

Turn-after :
    {s t : Queues} (i : ℕ)
    → Turn s t
    → i < s.made
    → ((t.jobs i).after ≡ (s.jobs i).after) × (i < t.made)
Turn-after {s} i (arrives sender active) lt = enqueue_for-after (or_text sender active) s i lt
Turn-after {s} i (starts k _ _ _) lt = (set_phase-after s i k running, lt)
Turn-after {s} i (finishes k _ _) lt = (set_phase-after s i k settled, lt)

Reaches-after :
    {s t : Queues} (i : ℕ)
    → Reaches s t
    → i < s.made
    → ((t.jobs i).after ≡ (s.jobs i).after) × (i < t.made)
Reaches-after i here lt = (refl, lt)
Reaches-after i (then r e) lt =
    let before = Reaches-after i r lt in
    let last = Turn-after i e before.1 in (last.0 ∙ before.0, last.1)

-- The job that `j` waits for is done first.
settle_below : (n : ℕ) (s : Queues) → IsChained s → (j : ℕ) → j < n → j < s.made → Settles s j
settle_below zero s h j b lt = absurd (omega arith)
settle_below (suc n) s h j b lt = elim (Option-cases (s.jobs j).after) [
  | inl a ↦ finish_free s h j lt (s.jobs j).phase refl (subst (IsFree s) (sym a) tt)
  | inr (p, a) ↦
      let below = h.before j p lt a in
      let r = settle_below n s h p (omega arith) (omega arith) in
      let kept = Reaches-after j r.reach lt in
      let free = subst (IsFree r.state) (sym (kept.0 ∙ a)) r.done in
      let u = finish_free r.state r.chained j kept.1 (r.state.jobs j).phase refl free in
      record {
        state = u.state;
        reach = Reaches-trans r.reach u.reach;
        done = u.done;
        same_made = u.same_made ∙ r.same_made;
        same_after = u.same_after ∙ kept.0;
        chained = u.chained;
      }
]

-- In whatever state the calls and the event loop have brought the queues, each call's work can be
-- brought to its end by starting and finishing work alone, with no further call.
pub queues-Settles : {s : Queues} (j : ℕ) → Reaches no_queues s → j < s.made → Settles s j
queues-Settles {s} j r lt = settle_below s.made s (Reaches-IsChained r) j lt lt
