-- ===== src/Vault/Written.antt =====
-- vault.ts: what the vault holds once an operation on it has returned, whatever could have failed.
use ep2pchat.Base.{
  ◌≡◌, refl, sym, ap, subst, ◌∙◌, inl, inr, String, some, List, [], ◌∷◌, ◌++◌, ℕ, Bool-cases,
}
use ep2pchat.Base.Dict.{lookup, insert, lookup-insert_self}
use ep2pchat.Base.Exec.{Result, ok, err, Exec, ◌>>=◌}
use ep2pchat.Base.Codec.{Base64}
use ep2pchat.Vault.Db.{Tables, Db, LocalKeyRow, execute, init_vault, next_fails}
use ep2pchat.Vault.Init.{init_vault-rows}
use ep2pchat.Vault.Keyed.{save_device_id}
use ep2pchat.Vault.Keys.RoundTrip.{last_active-append}
use ep2pchat.Vault.Keys.{Cipher, key_row, last_active, encrypt_secret, save_local_keys}

-- `Q` holds of the state in which the operation returned.
abbrev pub Returns {ℓ} : {A : Type 0} → (Db → Type ℓ) → Result A × Db → Type ℓ
Returns Q (ok _, d) = Q d
Returns Q (err _, d) = Unit

bound {ℓ} :
    {A B : Type 0} (Q : Db → Type ℓ) (r : Result A × Db) (f : A → Exec Db B)
    → ((a : A) (e : Db) → r ≡ (ok a, e) → Returns Q (f a e))
    → Returns Q (((λ _. r) >>= f) r.1)
bound Q (ok a, e) f h = h a e refl
bound Q (err x, e) f h = tt

pub Returns-bind {ℓ} :
    {A B : Type 0} (Q : Db → Type ℓ) (m : Exec Db A) (f : A → Exec Db B) (d : Db)
    → ((a : A) (e : Db) → m d ≡ (ok a, e) → Returns Q (f a e))
    → Returns Q ((m >>= f) d)
Returns-bind Q m f d h = bound Q (m d) f h

pub Returns-weaken {ℓ κ} :
    {A : Type 0} (Q : Db → Type ℓ) (R : Db → Type κ) (r : Result A × Db)
    → Returns Q r
    → ((e : Db) → Q e → R e)
    → Returns R r
Returns-weaken Q R (ok _, e) h k = k e h
Returns-weaken Q R (err _, e) h k = tt

pub Returns-at {ℓ} :
    {A : Type 0} (Q : Db → Type ℓ) {m : Result A × Db} {a : A} {e : Db}
    → Returns Q m
    → m ≡ (ok a, e)
    → Q e
Returns-at Q h p = subst (Returns Q) p h

-- The tables and the transaction are as they were.
pub record IsSame (d e : Db) : Type 0 where
  pub tables : e.tables ≡ d.tables
  pub saved : e.saved ≡ d.saved

pub init_vault-IsSame : (d e : Db) (a : Unit {0}) → init_vault d ≡ (ok a, e) → IsSame d e
init_vault-IsSame d e a p = record {
  tables = ap (λ r. r.1.tables) (sym p) ∙ (init_vault-rows d).0;
  saved = ap (λ r. r.1.saved) (sym p) ∙ (init_vault-rows d).1;
}

-- What a statement has written.
pub record Wrote (f : Tables → Tables) (d e : Db) : Type 0 where
  pub tables : e.tables ≡ f d.tables
  pub saved : e.saved ≡ d.saved

pub execute-Returns :
    (f : Tables → Tables) (d : Db) → Returns (Wrote f d) (execute (λ t. some (f t)) d)
unfolding execute
execute-Returns f d = elim (Bool-cases (next_fails d.faults)) [
  | inl b ↦ rw (b, execute) tt
  | inr b ↦ rw (b, execute) (record { tables = refl; saved = refl })
]

-- The id of the device is the one that was saved, and the keys and the transaction are as they were.
pub record HasDevice (id : String) (d e : Db) : Type 0 where
  pub device : lookup "device_id" e.tables.user_config ≡ some id
  pub keys : e.tables.local_keys ≡ d.tables.local_keys

pub save_device_id-Returns : (id : String) (d : Db) → Returns (HasDevice id d) (save_device_id id d)
unfolding save_device_id
save_device_id-Returns id d =
    let put = λ (t : Tables). record t { user_config = insert "device_id" id t.user_config } in
    Returns-bind (HasDevice id d) init_vault (λ _. execute (λ t. some (put t))) d
      (λ a e p.
        Returns-weaken (Wrote put e) (HasDevice id d) (execute (λ t. some (put t)) e)
          (execute-Returns put e)
          (λ u w. record {
            device =
                ap (λ (t : Tables). lookup "device_id" t.user_config) w.tables
                ∙ lookup-insert_self "device_id" id e.tables.user_config;
            keys =
                ap (λ (t : Tables). t.local_keys)
                  (w.tables ∙ ap put (init_vault-IsSame d e a p).tables);
          }))

-- The keys that were saved are the active ones, with their secrets encrypted.
pub record HasKeys (bundle : LocalKeyRow) (e : Db) : Type 0 where
  pub row : LocalKeyRow
  pub found : last_active e.tables.local_keys ≡ some row
  pub identity : row.identity_public ≡ bundle.identity_public
  pub pre_key : row.signed_pre_key_public ≡ bundle.signed_pre_key_public

pub save_local_keys-Returns :
    (b64 : Base64) (cipher : Cipher) (iv iv2 : List ℕ) (bundle : LocalKeyRow) (d : Db)
    → Returns (HasKeys bundle) (save_local_keys b64 cipher iv iv2 bundle d)
unfolding save_local_keys
save_local_keys-Returns b64 cipher iv iv2 bundle d =
    let Q = HasKeys bundle in
    Returns-bind Q init_vault _ d (λ _ e0 _.
      Returns-bind Q (encrypt_secret b64 cipher iv bundle.identity_secret) _ e0 (λ x e1 _.
        Returns-bind Q (encrypt_secret b64 cipher iv2 bundle.signed_pre_key_secret) _ e1 (λ y e2 _.
          let row = key_row bundle x y in
          let put = λ (t : Tables). record t { local_keys = t.local_keys ++ row ∷ [] } in
          Returns-weaken (Wrote put e2) Q (execute (λ t. some (put t)) e2) (execute-Returns put e2)
            (λ u w. record {
              row = row;
              found =
                  ap (λ (t : Tables). last_active t.local_keys) w.tables
                  ∙ last_active-append row e2.tables.local_keys refl;
              identity = refl;
              pre_key = refl;
            }))))
