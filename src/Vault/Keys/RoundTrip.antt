-- ===== src/Vault/Keys/RoundTrip.antt =====
-- vault.ts: the keys that were saved are the ones that are read.
use ep2pchat.Base.{
  ℕ, zero, suc, ◌≡◌, refl, ap, String, true, false, none, some, List, [], ◌∷◌, ◌++◌, All,
  All-append, ◌<◌, if-true, truthy?, or_else, length, arith,
}
use ep2pchat.Base.Exec.{ok}
use ep2pchat.Base.Codec.{Base64}
use ep2pchat.Vault.Db.{
  Db, LocalKeyRow, execute, select, get_vault_passphrase, next_fails, later, spent,
}
use ep2pchat.Vault.Init.{init_vault-opened}
use ep2pchat.Vault.Keys.{
  Cipher, first_of, rest_of, last_active, hex_to_buffer, derive_vault_key, encrypt_secret,
  decrypt_secret, key_row, add_keys, save_local_keys, decrypt_row, get_local_keys,
}

-- The bytes of a nonce: twelve of them.
abbrev pub IsIv : List ℕ → Type 0
IsIv iv = (length iv ≡ 12) × All (λ b. b < 256) iv

first_of-append : (n : ℕ) (xs ys : List ℕ) → length xs ≡ n → first_of n (xs ++ ys) ≡ xs
unfolding first_of
first_of-append zero [] ys h = refl
first_of-append zero (x ∷ xs) ys h = absurd (omega (arith, h))
first_of-append (suc n) [] ys h = absurd (omega (arith, h))
first_of-append (suc n) (x ∷ xs) ys h = ap (λ l. x ∷ l) (first_of-append n xs ys (omega arith))

rest_of-append : (n : ℕ) (xs ys : List ℕ) → length xs ≡ n → rest_of n (xs ++ ys) ≡ ys
unfolding rest_of
rest_of-append zero [] ys h = refl
rest_of-append zero (x ∷ xs) ys h = absurd (omega (arith, h))
rest_of-append (suc n) [] ys h = absurd (omega (arith, h))
rest_of-append (suc n) (x ∷ xs) ys h = rest_of-append n xs ys (omega arith)

pub last_active-append :
    (r : LocalKeyRow) (rs : List LocalKeyRow)
    → r.is_active ≡ true
    → last_active (rs ++ r ∷ []) ≡ some r
unfolding last_active
last_active-append r [] h = if-true r.is_active (some r) none h
last_active-append r (k ∷ rs) h = rw (last_active-append r rs h) refl

passphrase-cached :
    (d : Db)
    → truthy? d.cached_secret ≡ true
    → get_vault_passphrase d ≡ (ok (or_else d.cached_secret ""), d)
unfolding get_vault_passphrase
passphrase-cached d h = if-true (truthy? d.cached_secret) (ok (or_else d.cached_secret ""), d) _ h

execute-working :
    (r : LocalKeyRow) (d : Db)
    → next_fails d.faults ≡ false
    → execute (add_keys r) d ≡ (
      ok tt,
      record (spent d) { tables = record d.tables { local_keys = d.tables.local_keys ++ r ∷ [] } },
    )
unfolding execute
execute-working r d f = rw f refl

select-working :
    (d : Db)
    → next_fails d.faults ≡ false
    → select (λ t. last_active t.local_keys) d ≡ (ok (last_active d.tables.local_keys), spent d)
unfolding select
select-working d f = rw f refl

module _ (b64 : Base64) (cipher : Cipher) where
  open cipher use {seal, unseal, utf8, text_of}

  -- The key of the secret that is cached.
  unfoldable pub key_of : Db → List ℕ
  key_of d = hex_to_buffer b64 cipher (or_else d.cached_secret "")

  cached-key :
      (d : Db) → truthy? d.cached_secret ≡ true → derive_vault_key b64 cipher d ≡ (ok (key_of d), d)
  unfolding derive_vault_key key_of
  cached-key d h = rw (passphrase-cached d h) refl

  -- The text `s` is stored for `text`.
  abbrev IsSealed : List ℕ → String → String → Type 0
  IsSealed key text s =
      (bs : List ℕ) × (b64.decode s ≡ some bs)
      × (unseal key (first_of 12 bs) (rest_of 12 bs) ≡ some (utf8 text))

  encrypt-IsSealed :
      (iv c : List ℕ) (text : String) (d : Db)
      → truthy? d.cached_secret ≡ true
      → IsIv iv
      → seal (key_of d) iv (utf8 text) ≡ some c
      → (s : String) × (encrypt_secret b64 cipher iv text d ≡ (ok s, d))
        × IsSealed (key_of d) text s
  unfolding encrypt_secret
  encrypt-IsSealed iv c text d h i e =
      let coded =
        b64.encode_bytes (iv ++ c)
          (All-append (λ b. b < 256) iv c i.1 (cipher.seal_bytes (key_of d) iv (utf8 text) c e)) in
      (
        coded.0,
        rw (cached-key d h) (rw e (rw coded.1 refl)),
        (
          iv ++ c,
          coded.2,
          rw (first_of-append 12 iv c i.0, rest_of-append 12 iv c i.0)
              (cipher.unseal-seal (key_of d) iv (utf8 text) c e),
        ),
      )

  decrypt-IsSealed :
      (text s : String) (d : Db)
      → truthy? d.cached_secret ≡ true
      → IsSealed (key_of d) text s
      → text_of (utf8 text) ≡ text
      → decrypt_secret b64 cipher s d ≡ (ok text, d)
  unfolding decrypt_secret
  decrypt-IsSealed text s d h (bs, b, u) t = rw (cached-key d h) (rw b (rw u (rw t refl)))

  -- The rows after the keys were saved.
  stored : LocalKeyRow → String → String → Db → Db
  stored bundle s s2 d = record (spent d) {
    tables = record d.tables { local_keys = d.tables.local_keys ++ key_row bundle s s2 ∷ [] };
  }

  module _ (bundle : LocalKeyRow) (d : Db) (o : d.opened ≡ true)
      (h : truthy? d.cached_secret ≡ true) where
    save-opened :
        (iv iv2 : List ℕ) (s s2 : String)
        → next_fails d.faults ≡ false
        → encrypt_secret b64 cipher iv bundle.identity_secret d ≡ (ok s, d)
        → encrypt_secret b64 cipher iv2 bundle.signed_pre_key_secret d ≡ (ok s2, d)
        → save_local_keys b64 cipher iv iv2 bundle d ≡ (ok tt, stored bundle s s2 d)
    unfolding save_local_keys stored
    save-opened iv iv2 s s2 f e e2 =
        rw (init_vault-opened d o) (rw e (rw e2 (execute-working (key_row bundle s s2) d f)))

    get-stored :
        (s s2 : String)
        → next_fails (later d.faults) ≡ false
        → IsSealed (key_of d) bundle.identity_secret s
        → IsSealed (key_of d) bundle.signed_pre_key_secret s2
        → text_of (utf8 bundle.identity_secret) ≡ bundle.identity_secret
        → text_of (utf8 bundle.signed_pre_key_secret) ≡ bundle.signed_pre_key_secret
        → (get_local_keys b64 cipher (stored bundle s s2 d)).0
          ≡ ok (some (record bundle { is_active = true }))
    unfolding get_local_keys decrypt_row stored key_of
    get-stored s s2 g p p2 t t2 =
        let e = stored bundle s s2 d in
        rw (init_vault-opened e o) (
          rw (select-working e g) (
            rw (last_active-append (key_row bundle s s2) d.tables.local_keys refl) (
              rw (decrypt-IsSealed bundle.identity_secret s (spent e) h p t)
                (rw (decrypt-IsSealed bundle.signed_pre_key_secret s2 (spent e) h p2 t2) refl))))

    -- On an open vault whose secret is known and whose two statements do not fail, the keys that
    -- were saved with two nonces of twelve bytes, where the cipher accepts both secrets and the
    -- text codec keeps them, are the ones that are read, as the active ones.
    pub get-save_local_keys :
        (iv iv2 c c2 : List ℕ)
        → next_fails d.faults ≡ false
        → next_fails (later d.faults) ≡ false
        → IsIv iv
        → IsIv iv2
        → text_of (utf8 bundle.identity_secret) ≡ bundle.identity_secret
        → text_of (utf8 bundle.signed_pre_key_secret) ≡ bundle.signed_pre_key_secret
        → seal (key_of d) iv (utf8 bundle.identity_secret) ≡ some c
        → seal (key_of d) iv2 (utf8 bundle.signed_pre_key_secret) ≡ some c2
        → (get_local_keys b64 cipher (save_local_keys b64 cipher iv iv2 bundle d).1).0
          ≡ ok (some (record bundle { is_active = true }))
    get-save_local_keys iv iv2 c c2 f g i i2 t t2 e e2 =
        let p = encrypt-IsSealed iv c bundle.identity_secret d h i e in
        let p2 = encrypt-IsSealed iv2 c2 bundle.signed_pre_key_secret d h i2 e2 in
        rw (save-opened iv iv2 p.0 p2.0 f p.1 p2.1) (get-stored p.0 p2.0 g p.2 p2.2 t t2)
