-- ===== src/Api/Health.antt =====
-- api.ts: the two probes, `canAttemptAdminBootstrap` and `checkServerHealth`.
use Prim.Native.String.{slice, len}
use text.Mathlib.Text.{find?}
use ep2pchat.Base.{◌+◌, String, Bool, false, Option, none, some, truthy, text_append}
use ep2pchat.Base.Codec.{Json}
use ep2pchat.Api.{Response, is_ok}

-- A setup token is not empty.
unfoldable pub can_attempt_admin_bootstrap : String → Bool
can_attempt_admin_bootstrap setup_token = truthy setup_token

-- `API_BASE_URL.replace("/api/v1", "/health")`
pub health_url : String → String
health_url base = elim (find? base "/api/v1") [
  | none ↦ base
  | some i ↦ text_append (slice base 0 i) (text_append "/health" (slice base (i + 7) (len base)))
]

module _ {json : Json} where
  -- Of what `fetch` gives for that address.
  pub check_server_health : Option (Response json) → Bool
  check_server_health none = false
  check_server_health (some r) = is_ok r.status
