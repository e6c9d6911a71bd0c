-- ===== src/Auth/Organisation.antt =====
-- apps/desktop/src/features/auth/OnboardingScreen.tsx, `orgContext`: the organisation that the domain
-- of an email names.
use Prim.Native.Char.{Char, char, code}
use text.Mathlib.Text.{find?}
use ep2pchat.Base.{
  String, Bool, true, false, Option, none, some, ite, ℕ_discrete, if◌then◌else◌, truthy, is_some,
  text_append, ◌&&◌,
}
use ep2pchat.Auth.Claims.{after_code, until_code}

pub record OrgContext : Type 0 where
  pub name : String
  pub domain : String
  pub initials : String

module _ (to_upper_case : String → String) where
  abbrev upper : Char → String
  upper c = to_upper_case (String.◌∷◌ c String.[])

  -- The words of the name with a capital: a hyphen counts as a space, and `start` says that a word
  -- begins.
  unfoldable pub titled : String → Bool → String
  titled String.[] start = ""
  titled (String.◌∷◌ c s) start =
      let word = titled s true in
      let rest = titled s false in
      ite (ℕ_discrete (code c) 45) (String.◌∷◌ (char 32 tt) word) (
        ite (ℕ_discrete (code c) 32) (String.◌∷◌ (char 32 tt) word)
          (if start then text_append (upper c) rest else String.◌∷◌ c rest))

  abbrev initial : String → String
  initial String.[] = to_upper_case ""
  initial (String.◌∷◌ c s) = upper c

  abbrev org_named : String → Option OrgContext
  org_named domain =
      if truthy domain && is_some (find? domain ".")
      then (let name = titled (until_code 46 domain) true in
          some (record { name = name; domain = domain; initials = initial name }))
      else none

  abbrev of_domain : Option String → Option OrgContext
  of_domain none = none
  of_domain (some rest) = org_named (until_code 64 rest)

  -- `email.split("@")[1]` is what stands between the first two signs.
  unfoldable pub org_context : String → Option OrgContext
  org_context email = of_domain (after_code 64 email)
