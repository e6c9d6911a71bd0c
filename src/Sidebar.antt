-- ===== src/Sidebar.antt =====
-- apps/desktop/src/components/layout/Sidebar.tsx: the contacts, pinned or by their department.
pub mod Grouping
pub mod Tests
use text.Mathlib.Text.{find?}
use ep2pchat.Base.{
  String, Bool, Option, none, some, List, [], ◌∷◌, ◌++◌, ite, string_dec, if◌then◌else◌, or_else,
  or_text, text_append, keep_if, not, is_some,
}
use ep2pchat.Stores.{Contact}
use ep2pchat.Workflows.{has}

pub record Groups : Type 0 where
  pub pinned : List Contact
  pub departments : List (String × List Contact)

-- `c.department || "General"`
unfoldable pub department_of : Contact → String
department_of c = or_else (or_text c.department none) "General"

-- The properties that an object inherits from Object.prototype. All of them are truthy, and none has
-- a method `push`.
abbrev pub inherited : List String
inherited =
    "constructor" ∷ "__defineGetter__" ∷ "__defineSetter__" ∷ "hasOwnProperty" ∷ "__lookupGetter__"
    ∷ "__lookupSetter__" ∷ "isPrototypeOf" ∷ "propertyIsEnumerable" ∷ "toString" ∷ "valueOf"
    ∷ "__proto__" ∷ "toLocaleString" ∷ []

-- The contact at the end of its department, or in a new one.
unfoldable pub pushed : Contact → List (String × List Contact) → List (String × List Contact)
pushed c [] = (department_of c, c ∷ []) ∷ []
pushed c ((d, cs) ∷ ds) =
    ite (string_dec d (department_of c)) ((d, cs ++ c ∷ []) ∷ ds) ((d, cs) ∷ pushed c ds)

-- `push` throws (`none`) where the department is the name of an inherited property.
unfoldable pub add_contact :
    Contact → List (String × List Contact) → Option (List (String × List Contact))
add_contact c ds = if has (department_of c) inherited then none else some (pushed c ds)

unfoldable pub add_contacts :
    List Contact → List (String × List Contact) → Option (List (String × List Contact))
add_contacts [] ds = some ds
add_contacts (c ∷ cs) ds = elim (add_contact c ds) [ none ↦ none | some es ↦ add_contacts cs es ]

-- `to_lower_case` is that of a text, and `sorted` sorts the entries of an object by their names with
-- localeCompare.
module _ (to_lower_case : String → String)
    (sorted : List (String × List Contact) → List (String × List Contact)) where
  abbrev pub matches : String → Contact → Bool
  matches search_query c = is_some (
      find?
        (to_lower_case
          (text_append c.email (text_append " " (or_else (or_text c.username none) ""))))
        (to_lower_case search_query))

  abbrev pub grouped : List Contact → Option (List (String × List Contact)) → Option Groups
  grouped pinned none = none
  grouped pinned (some ds) = some (record { pinned = pinned; departments = sorted ds })

  unfoldable pub grouped_contacts : String → List String → List Contact → Option Groups
  grouped_contacts search_query pinned_contacts contacts =
      let filtered = keep_if (matches search_query) contacts in
      grouped (keep_if (λ (c : Contact). has c.id pinned_contacts) filtered)
        (add_contacts (keep_if (λ (c : Contact). not (has c.id pinned_contacts)) filtered) [])
