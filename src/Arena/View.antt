-- ===== src/Arena/View.antt =====
-- ChatArena.tsx: which messages are shown, with which header, parent and menu.
use text.Mathlib.Text.{find?}
use ep2pchat.Base.{
  ℕ, zero, suc, String, Bool, true, Option, none, some, List, [], ◌∷◌, if◌then◌else◌, or_else, not,
  is_some, truthy?,
}
use ep2pchat.Vault.Messages.{str_eq}
use ep2pchat.Vault.History.{Shown}

pub data MenuItem : Type 0 where
  reply edit delete : MenuItem

-- `m.text.toLowerCase().includes(…)`, which throws (`none`) where a message has no text: the
-- component is not rendered then.
module _ {V : Type 0} (to_lower_case : String → String) where
  abbrev kept : Bool → Shown V → Option (List (Shown V)) → Option (List (Shown V))
  kept b m none = none
  kept b m (some ms) = some (if b then m ∷ ms else ms)

  abbrev found :
      Option String → String → Shown V → Option (List (Shown V)) → Option (List (Shown V))
  found none search m rest = none
  found (some text) search m rest =
      kept (is_some (find? (to_lower_case text) (to_lower_case search))) m rest

  unfoldable pub visible_messages : String → List (Shown V) → Option (List (Shown V))
  visible_messages search [] = some []
  visible_messages search (m ∷ ms) = found m.text search m (visible_messages search ms)

module _ {V : Type 0} where
  abbrev get_elem? : List (Shown V) → ℕ → Option (Shown V)
  get_elem? [] i = none
  get_elem? (m ∷ ms) zero = some m
  get_elem? (m ∷ ms) (suc i) = get_elem? ms i

  -- `idx === 0 || messages[idx - 1]?.sender !== m.sender`
  unfoldable pub show_header : List (Shown V) → ℕ → Shown V → Bool
  show_header messages zero m = true
  show_header messages (suc i) m = elim (get_elem? messages i) [
    | none ↦ true
    | some p ↦ not (str_eq p.sender m.sender)
  ]

  -- The message that `m` answers.
  unfoldable pub parent_of : List (Shown V) → Shown V → Option (Shown V)
  parent_of [] m = none
  parent_of (p ∷ ps) m =
      if truthy? m.parent_id
      then (if str_eq p.id (or_else m.parent_id "") then some p else parent_of ps m)
      else none

  unfoldable pub menu_items : Shown V → List MenuItem
  menu_items m = if m.is_deleted then [] else reply ∷ (if m.is_me then edit ∷ delete ∷ [] else [])
