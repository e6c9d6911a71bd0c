-- ===== src/Vault/Keys.antt =====
-- vault.ts: the keys of the device, `encryptSecret`, `decryptSecret`, `saveLocalKeys` and
-- `getLocalKeys`. What `crypto.getRandomValues` gives is the argument `iv`.
pub mod RoundTrip
use Prim.Native.String
use ep2pchat.Base.{
  ℕ, zero, suc, ◌≡◌, refl, String, Bool, true, false, Option, none, some, List, [], ◌∷◌, ◌++◌, All,
  ◌<◌, if◌then◌else◌, text_append,
}
use ep2pchat.Base.Exec.{Result, ok, err, Exec, pure, throw, catch, ◌>>=◌, ◌>>◌}
use ep2pchat.Base.Codec.{Base64}
use ep2pchat.Vault.Db.{Tables, Db, LocalKeyRow, execute, select, get_vault_passphrase, init_vault}

-- The platform's AES-GCM and text codecs: `parse_hex` is parseInt(s, 16) as a byte of an array, and
-- `none` a rejection.
pub record Cipher : Type 0 where
  pub parse_hex : String → ℕ
  pub seal : List ℕ → List ℕ → List ℕ → Option (List ℕ)
  pub unseal : List ℕ → List ℕ → List ℕ → Option (List ℕ)
  pub utf8 : String → List ℕ
  pub text_of : List ℕ → String
  pub unseal-seal : (key iv d c : List ℕ) → seal key iv d ≡ some c → unseal key iv c ≡ some d
  pub seal_bytes : (key iv d c : List ℕ) → seal key iv d ≡ some c → All (λ b. b < 256) c

-- `xs.slice(0, n)` and `xs.slice(n)`
unfoldable pub first_of : ℕ → List ℕ → List ℕ
first_of zero xs = []
first_of (suc n) [] = []
first_of (suc n) (x ∷ xs) = x ∷ first_of n xs

unfoldable pub rest_of : ℕ → List ℕ → List ℕ
rest_of zero xs = xs
rest_of (suc n) [] = []
rest_of (suc n) (x ∷ xs) = rest_of n xs

-- SELECT * FROM local_keys WHERE is_active = 1 ORDER BY id DESC LIMIT 1
unfoldable pub last_active : List LocalKeyRow → Option LocalKeyRow
last_active [] = none
last_active (r ∷ rs) = elim (last_active rs) [
  | some k ↦ some k
  | none ↦ if r.is_active then some r else none
]

abbrev pub awaited : {A : Type 0} → Option A → Exec Db A
awaited none = throw "OperationError"
awaited (some a) = pure a

abbrev pub key_row : LocalKeyRow → String → String → LocalKeyRow
key_row bundle identity_secret signed_pre_key_secret = record bundle {
  identity_secret = identity_secret;
  signed_pre_key_secret = signed_pre_key_secret;
  is_active = true;
}

abbrev pub add_keys : LocalKeyRow → Tables → Option Tables
add_keys r t = some (record t { local_keys = t.local_keys ++ r ∷ [] })

module _ (b64 : Base64) (cipher : Cipher) where
  open cipher use {parse_hex, seal, unseal, utf8, text_of}

  -- Each pair of characters; a last one alone falls outside of the array.
  unfoldable pub hex_to_buffer : String → List ℕ
  hex_to_buffer String.[] = []
  hex_to_buffer (String.◌∷◌ c String.[]) = []
  hex_to_buffer (String.◌∷◌ c (String.◌∷◌ d s)) =
      parse_hex (String.◌∷◌ c (String.◌∷◌ d String.[])) ∷ hex_to_buffer s

  unfoldable pub derive_vault_key : Exec Db (List ℕ)
  derive_vault_key = do secret ← get_vault_passphrase; pure (hex_to_buffer secret)

  unfoldable pub encrypt_secret : List ℕ → String → Exec Db String
  encrypt_secret iv text = do
    key ← derive_vault_key
    ciphertext ← awaited (seal key iv (utf8 text))
    awaited (b64.encode (iv ++ ciphertext))

  unfoldable pub decrypt_secret : String → Exec Db String
  decrypt_secret base64_str = do
    key ← derive_vault_key
    combined ← awaited (b64.decode base64_str)
    decrypted ← awaited (unseal key (first_of 12 combined) (rest_of 12 combined))
    pure (text_of decrypted)

  unfoldable pub save_local_keys : List ℕ → List ℕ → LocalKeyRow → Exec Db (Unit {0})
  save_local_keys iv iv2 bundle = do
    init_vault
    enc_ik_secret ← encrypt_secret iv bundle.identity_secret
    enc_spk_secret ← encrypt_secret iv2 bundle.signed_pre_key_secret
    execute (add_keys (key_row bundle enc_ik_secret enc_spk_secret))

  unfoldable pub decrypt_row : LocalKeyRow → Exec Db (Option LocalKeyRow)
  decrypt_row row = do
    identity_secret ← decrypt_secret row.identity_secret
    signed_pre_key_secret ← decrypt_secret row.signed_pre_key_secret
    pure (
        some (record row {
          identity_secret = identity_secret;
          signed_pre_key_secret = signed_pre_key_secret;
        }))

  abbrev pub decrypted_row : Option LocalKeyRow → Exec Db (Option LocalKeyRow)
  decrypted_row none = pure none
  decrypted_row (some row) = catch (decrypt_row row) (λ _. pure none)

  unfoldable pub get_local_keys : Exec Db (Option LocalKeyRow)
  get_local_keys = do init_vault; row ← select (λ t. last_active t.local_keys); decrypted_row row
