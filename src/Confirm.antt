-- ===== src/Confirm.antt =====
-- apps/desktop/src/components/ui/ConfirmDialog.tsx: the question that is shown, and the promises that
-- wait for its answer, numbered in the order of the calls of `confirm`.
use ep2pchat.Base.{ℕ, suc, Bool, false, Option, none, some, List, [], ◌∷◌, ◌++◌}

pub record Dialog (O : Type 0) : Type 0 where
  pub pending : Option (O × ℕ)
  pub made : ℕ
  -- the promises that were resolved, with their answers
  pub resolved : List (ℕ × Bool)

pub data Act (O : Type 0) : Type 0 where
  asks : O → Act O
  -- a button, the overlay, or Escape
  answers : Bool → Act O
  escapes : Act O

module _ {O : Type 0} where
  -- A question that was pending is replaced, and its promise is not resolved any more.
  unfoldable pub confirm : O → Dialog O → Dialog O
  confirm options s = record s { pending = some (options, s.made); made = suc s.made }

  abbrev resolve_pending : Option (O × ℕ) → Bool → Dialog O → Dialog O
  resolve_pending none result s = s
  resolve_pending (some (options, i)) result s = record s {
    pending = none;
    resolved = s.resolved ++ (i, result) ∷ [];
  }

  unfoldable pub handle_result : Bool → Dialog O → Dialog O
  handle_result result s = resolve_pending s.pending result s

  unfoldable pub act : Act O → Dialog O → Dialog O
  act (asks options) s = confirm options s
  act (answers result) s = handle_result result s
  act escapes s = handle_result false s
