-- ===== src/Sidebar/Tests.antt =====
-- The theorem on the groups of contacts at a concrete input.
use mathlib.Core.List.Perm as Perm
use ep2pchat.Base.{some, List, [], ◌∷◌, keep_if, not}
use ep2pchat.Stores.{Contact}
use ep2pchat.Workflows.{has}
use ep2pchat.Workflows.Tests.{bob}
use ep2pchat.Sidebar.{matches, grouped_contacts}
use ep2pchat.Sidebar.Grouping.{Shows, grouped_contacts-Shows}

abbrev three : List Contact
three = bob ∷ record bob { id = "eve" } ∷ record bob { id = "ann"; department = some "Sales" } ∷ []

grouped_contacts-Shows_example :
    Shows
      (keep_if
        (λ (c : Contact). not (has c.id ("eve" ∷ [])))
        (keep_if (matches (λ s. s) (λ ds. ds) "") three))
      (keep_if (matches (λ s. s) (λ ds. ds) "") three)
      (grouped_contacts (λ s. s) (λ ds. ds) "" ("eve" ∷ []) three)
grouped_contacts-Shows_example =
    grouped_contacts-Shows (λ s. s) (λ ds. ds) (λ ds. Perm.refl ds) "" ("eve" ∷ []) three
