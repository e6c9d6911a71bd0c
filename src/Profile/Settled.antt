-- ===== src/Profile/Settled.antt =====
-- useProfileWorkflows.ts: what a save or a revocation leaves behind.
use ep2pchat.Base.{◌≡◌, refl, String, false, Option, none, List, [], or_else}
use ep2pchat.Stores.{SessionState}
use ep2pchat.Workflows.{Answer, loaded, failed}
use ep2pchat.Profile.{
  Profile, renamed, refresh_my_devices, handle_save_profile, handle_revoke_own_device,
}

abbrev pub session_after :
    String → String → Answer (Unit {0}) → Option SessionState → Option SessionState
session_after username department (loaded _) s = renamed username department s
session_after username department (failed m) s = s

abbrev pub devices_after :
    {D : Type 0} → Answer (Unit {0}) → Answer (Option (List D)) → List D → List D
devices_after (loaded _) (loaded ds) old = or_else ds []
devices_after (loaded _) (failed m) old = old
devices_after (failed m) devices old = old

module _ {D : Type 0} where
  -- A save ends with the saving mark off, and changes the session exactly if the server took the
  -- profile.
  pub save_profile-settled :
      (username department : String) (answer : Answer (Unit {0})) (p : Profile D)
      → let q = handle_save_profile username department answer p in
        (q.is_saving_profile ≡ false)
        × (q.session ≡ session_after username department answer p.session)
  unfolding handle_save_profile
  save_profile-settled username department (loaded _) p = (refl, refl)
  save_profile-settled username department (failed m) p = (refl, refl)

  -- A revocation ends with no device marked, and replaces the list of devices exactly if both the
  -- revocation and the reading of the list succeed.
  pub revoke_own_device-settled :
      (device_id : String) (answer : Answer (Unit {0})) (devices : Answer (Option (List D)))
      (p : Profile D)
      → let q = handle_revoke_own_device device_id answer devices p in
        (q.is_revoking_device ≡ none) × (q.my_devices ≡ devices_after answer devices p.my_devices)
  unfolding handle_revoke_own_device refresh_my_devices
  revoke_own_device-settled device_id (loaded _) (loaded ds) p = (refl, refl)
  revoke_own_device-settled device_id (loaded _) (failed m) p = (refl, refl)
  revoke_own_device-settled device_id (failed m) devices p = (refl, refl)
