-- ===== src/App/Onboarding.antt =====
-- apps/desktop/src/features/auth/OnboardingWizard.tsx, and what App.tsx does at its end.
use ep2pchat.Base.{ℕ, String, Bool, false, some}
use ep2pchat.Orchestration.{LocalKeys}
use ep2pchat.Stores.{SessionState}
use ep2pchat.Workflows.{Answer, loaded, failed}
use ep2pchat.Auth.Claims.{until_code}
use ep2pchat.App.{App, SignedIn, handle_authenticated}

pub record Wizard : Type 0 where
  pub step : ℕ
  pub username : String
  pub department : String
  pub loading : Bool

-- `email.split("@")[0]` is the first name.
unfoldable pub first_wizard : String → Wizard
first_wizard email = record {
  step = 1;
  username = until_code 64 email;
  department = "";
  loading = false;
}

-- The session as it was, with the name and the department.
abbrev completed : SessionState → String → LocalKeys → Wizard → SignedIn
completed s device keys z = record {
  user_id = s.user_id;
  org_id = s.org_id;
  email = s.email;
  device_id = device;
  keys = keys;
  role = s.role;
  username = some z.username;
  department = some z.department;
}

-- `handleFinish`: the profile is sent to the server, and whatever it answers the onboarding is over.
unfoldable pub handle_finish :
    {P M S : Type 0}
    → Answer (Unit {0})
    → SessionState
    → String
    → LocalKeys
    → Wizard
    → App P M S
    → Wizard × App P M S
handle_finish (loaded _) s device keys z a =
    (record z { loading = false }, handle_authenticated (completed s device keys z) a)
handle_finish (failed m) s device keys z a =
    (record z { loading = false }, handle_authenticated (completed s device keys z) a)
