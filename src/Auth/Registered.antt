-- ===== src/Auth/Registered.antt =====
-- AuthFlow.tsx, `handleRegisterDevice`: what it leaves behind, and that it never stays on the loading
-- view.
use ep2pchat.Base.{◌≡◌, some, List, ◌∷◌, All, or_else}
use ep2pchat.Base.Dict.{lookup}
use ep2pchat.Errors.{Thrown}
use ep2pchat.Errors.Attempt.{Outcome, given, thrown, Attempt}
use ep2pchat.Vault.Db.{Db}
use ep2pchat.Vault.Written.{HasKeys}
use ep2pchat.Vault.Otpk.{OtpkPair}
use ep2pchat.Vault.Otpk.Written.{IsStored}
use ep2pchat.Auth.{AuthFlow, World, Platform, Authenticated, Keys, register, all_pairs, Granted}

module _ (p : Platform) (w : World) where
  -- The device was registered: the server granted it, and the vault has its id, the keys that were
  -- generated as the active ones, and all of its one-time pre-keys; `x` is what `onAuthenticated` was
  -- given.
  pub record Enrolled (a : AuthFlow) (x : Authenticated) (b : AuthFlow) : Type 0 where
    pub granted : Granted
    pub answered : w.register_device ≡ given granted
    pub generated : w.generate_keys ≡ given x.local_keys
    pub told : b.authenticated ≡ x ∷ a.authenticated
    pub user : x.user_id ≡ a.user_id
    pub email : x.email ≡ a.email
    pub device : x.device_id ≡ granted.device_id
    pub token : b.token ≡ or_else granted.token ""
    pub device_ref : b.my_device_id ≡ some x.device_id
    pub keys_ref : b.local_keys ≡ some x.local_keys
    pub saved_device : lookup "device_id" b.db.tables.user_config ≡ some x.device_id
    pub saved_keys : HasKeys x.local_keys.row b.db
    pub pairs : List OtpkPair
    pub read : all_pairs p x.local_keys.one_time_pre_keys ≡ given pairs
    pub saved_pairs : All (λ (k : OtpkPair). IsStored k.key_id b.db.tables) pairs

  -- The device was registered, or else nobody was signed in and it can be tried again.
  pub data Registering (a : AuthFlow) : AuthFlow → Type 0 where
    signed_on : (x : Authenticated) (b : AuthFlow) → Enrolled a x b → Registering a b
    to_retry :
        (b : AuthFlow) → b.authenticated ≡ a.authenticated → b.view ≡ register → Registering a b

  pub data Steps (a : AuthFlow) : Outcome (Unit {0}) × AuthFlow → Type 0 where
    done : (x : Authenticated) (b : AuthFlow) → Enrolled a x b → Steps a (given tt, b)
    failed : (e : Thrown) (b : AuthFlow) → b.authenticated ≡ a.authenticated → Steps a (thrown e, b)

pub record Kept (a t : AuthFlow) : Type 0 where
  pub authenticated : t.authenticated ≡ a.authenticated
  pub email : t.email ≡ a.email
  pub user : t.user_id ≡ a.user_id
