-- ===== src/Auth/Stuck.antt =====
-- AuthFlow.tsx: an administrator whose keys are stored without a device stays on the loading view.
use ep2pchat.Base.{◌≡◌, refl, true, false, none, some, truthy?, ite-same}
use ep2pchat.Base.Exec.{ok}
use ep2pchat.Errors.Attempt.{given}
use ep2pchat.Vault.Db.{LocalKeyRow}
use ep2pchat.Vault.Keys.{get_local_keys}
use ep2pchat.Vault.Keyed.{get_device_id}
use ep2pchat.Vault.Messages.{sql_eq}
use ep2pchat.Api.Health.{can_attempt_admin_bootstrap}
use ep2pchat.Auth.{AuthFlow, World, Platform, Access, Granted, loading, store_pre_keys}
use ep2pchat.Auth.Setup.{keys_for, complete_setup}
use ep2pchat.Auth.Request.{bootstrap, request_steps, handle_request_access}

-- The administrator is known to the server, which gives a token; the vault has keys and no device.
pub record IsReturning (p : Platform) (w : World) (a : AuthFlow) : Type 0 where
  pub idle : a.is_submitting ≡ false
  pub res : Access
  pub asked : w.request_access ≡ given res
  pub active : sql_eq res.status "active" ≡ true
  pub configured : can_attempt_admin_bootstrap p.setup_token ≡ true
  pub grant : Granted
  pub granted : w.admin_bootstrap ≡ given grant
  pub with_token : truthy? grant.token ≡ true
  pub row : LocalKeyRow
  pub keyed : get_local_keys p.b64 p.cipher a.db ≡ (ok (some row), a.db)
  pub deviceless : get_device_id a.db ≡ (ok none, a.db)

module _ (p : Platform) (w : World) where
  -- An administrator whom the server knows and gives a token, and whose vault has keys but no
  -- device, ends on the loading view, with nobody signed in and the submission over.
  pub handle_request_access-stuck :
      (a : AuthFlow)
      → IsReturning p w a
      → let b = handle_request_access p w a in
        (b.view ≡ loading) × (b.authenticated ≡ a.authenticated) × (b.is_submitting ≡ false)
  unfolding handle_request_access request_steps bootstrap complete_setup keys_for store_pre_keys
  handle_request_access-stuck a h = rw (h.idle) (
      rw h.asked (
        rw h.active (
          rw h.configured (
            rw h.granted (
              rw h.with_token (
                rw h.keyed (
                  rw h.deviceless (
                    rw h.keyed (
                      ite-same _ (λ (b : AuthFlow). b.view) _ _ refl refl,
                      ite-same _ (λ (b : AuthFlow). b.authenticated) _ _ refl refl,
                      refl,
                    )))))))))
