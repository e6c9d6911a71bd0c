-- ===== src/Admin/Settings.antt =====
-- features/admin/dashboard/OrganizationSettings.tsx and CommandCenter.tsx: what is shown of the
-- server's health, the scan, and the wiping of the vault.
use ep2pchat.Base.{ℕ, String, Bool, true, false, Option, none, some, [], if◌then◌else◌}
use ep2pchat.Base.Exec.{Exec, pure, catch, ◌>>◌}
use ep2pchat.Vault.Db.{Db, execute, init_vault}
use ep2pchat.Vault.Messages.{sql_eq}

pub record Health : Type 0 where
  pub status : String
  pub val : ℕ
  pub color : String

pub record HealthStatus : Type 0 where
  pub gateway : Health
  pub db : Health
  pub nats : Health

abbrev health : String → ℕ → String → Health
health status val color = record { status = status; val = val; color = color }

abbrev pub checking : Health
checking = health "CHECKING" 50 "bg-accent-amber"

-- `dbRes.status` and `natsRes.status`, which are undefined where the request failed.
unfoldable pub check_health : Bool → Option String → Option String → HealthStatus
check_health gateway_ok db_status nats_status = record {
  gateway =
      if gateway_ok
      then health "OPTIMAL" 100 "bg-accent-cyan"
      else health "OFFLINE" 0 "bg-accent-red";
  db =
      if sql_eq db_status "connected"
      then health "SECURE" 100 "bg-accent-green"
      else health "DEGRADED" 30 "bg-accent-amber";
  nats =
      if sql_eq nats_status "connected"
      then health "NOMINAL" 100 "bg-accent-cyan"
      else health "OFFLINE" 0 "bg-accent-red";
}

pub record Scan : Type 0 where
  pub is_scanning : Bool
  pub scan_result : Option String

-- `handleScan` up to its timer, and the end of it.
unfoldable pub handle_scan : Scan → Scan
handle_scan s = if s.is_scanning then s else record { is_scanning = true; scan_result = none }

unfoldable pub scan_ends : Scan → Scan
scan_ends s = record { is_scanning = false; scan_result = some "Zero anomalies detected" }

abbrev wipe : Exec Db (Unit {0})
wipe = do
  init_vault
  execute (λ t. some (record t { local_keys = [] }))
  execute (λ t. some (record t { messages = [] }))

-- `confirmed` is what the user answers; the page is loaded again then.
unfoldable pub handle_wipe_vault : Bool → Db → Db
handle_wipe_vault false d = d
handle_wipe_vault true d = (catch wipe (λ _. pure tt) d).1
