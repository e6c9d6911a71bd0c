-- ===== src/Admin/Lists.antt =====
-- The filters of features/admin/dashboard/AdmissionQueue.tsx, SecurityLedger.tsx and
-- EndpointRegistry.tsx.
use text.Mathlib.Text.{find?}
use ep2pchat.Base.{String, Bool, Option, List, or_else, or_text, keep_if, is_some, ◌||◌, none}

pub record AdminUser : Type 0 where
  pub username : Option String
  pub email : Option String

pub record LogEntry : Type 0 where
  pub action : Option String
  pub actor_email : Option String

module _ (to_lower_case : String → String) where
  -- `(s || "").toLowerCase().includes(search.toLowerCase())`
  abbrev names : String → Option String → Bool
  names search s =
      is_some (find? (to_lower_case (or_else (or_text s none) "")) (to_lower_case search))

  unfoldable pub filtered_queue : String → List AdminUser → List AdminUser
  filtered_queue search =
      keep_if (λ (u : AdminUser). names search u.username || names search u.email)

  unfoldable pub filtered_logs : String → List LogEntry → List LogEntry
  filtered_logs search =
      keep_if (λ (l : LogEntry). names search l.action || names search l.actor_email)

  unfoldable pub filtered_users : String → List AdminUser → List AdminUser
  filtered_users search = keep_if (λ (u : AdminUser). names search u.email)
