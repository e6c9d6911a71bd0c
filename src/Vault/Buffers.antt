-- ===== src/Vault/Buffers.antt =====
-- vault.ts: the two conversions between byte arrays and base64, over btoa and atob of the browser.
pub mod Tests
use Prim.Native.Nat.{Ordering, compare}
use Prim.Native.Char.{Char, char, code, IsLt, IsScalar}
use Prim.Native.String.append
use native.Mathlib.Omega.{compare-gt, compare-eq}
use ep2pchat.Base.{
  ℕ, ◌≡◌, refl, sym, ap, ◌∙◌, subst, String, text_append, Option, none, some, List, [], ◌∷◌, ◌++◌,
  All, ◌<◌, ◌%◌, dec_lt, arith, append_assoc, append-nil,
}
use ep2pchat.Base.Codec.{Base64}

abbrev BothLt : Ordering → Ordering → Type 0
BothLt Ordering.lt o = IsLt o
BothLt Ordering.eq _ = ⊥
BothLt Ordering.gt _ = ⊥

-- `IsScalar` of the three comparisons that it makes.
abbrev ScalarOf : Ordering → Ordering → Ordering → Type 0
ScalarOf Ordering.lt _ _ = Unit
ScalarOf Ordering.eq o p = BothLt o p
ScalarOf Ordering.gt o p = BothLt o p

compare-byte : (b : ℕ) (o : Ordering) → compare b 55296 ≡ o → b < 256 → Ordering.lt ≡ o
compare-byte b Ordering.lt e h = refl
compare-byte b Ordering.eq e h = let n = compare-eq b 55296 e in absurd (omega arith)
compare-byte b Ordering.gt e h = let n = compare-gt b 55296 e in absurd (omega arith)

pub byte-IsScalar : (b : ℕ) → b < 256 → IsScalar b
byte-IsScalar b h =
    subst (λ o. ScalarOf o (compare 57343 b) (compare b 1114112))
      (compare-byte b (compare b 55296) refl h) tt

-- String.fromCharCode on a byte. A larger number is none: `btoa` throws on the text that has it.
abbrev pub from_char_code : ℕ → Option Char
from_char_code b = elim (dec_lt b 256) [ yes h ↦ some (char b (byte-IsScalar b h)) | no _ ↦ none ]

infixl 5 ◌>>=◌
abbrev pub ◌>>=◌ {ℓ κ} : {A : Type ℓ} {B : Type κ} → Option A → (A → Option B) → Option B
none >>= f = none
some x >>= f = f x

-- The loop of bufferToBase64: one more character on the text for each byte.
abbrev pub binary_from : String → List ℕ → Option String
binary_from bin [] = some bin
binary_from bin (b ∷ bs) = do
  c ← from_char_code b
  binary_from (text_append bin (String.◌∷◌ c String.[])) bs

-- The loop of base64ToBuffer, whose array keeps a number modulo 256.
abbrev pub char_codes : String → List ℕ
char_codes String.[] = []
char_codes (String.◌∷◌ c s) = (code c % 256) ∷ char_codes s

-- btoa and atob: what `btoa` makes of a text whose characters are bytes, `atob` takes back.
pub record WindowBase64 : Type 0 where
  pub btoa : String → Option String
  pub atob : String → Option String
  pub atob-btoa :
      (bs : List ℕ) (s : String)
      → All (λ b. b < 256) bs
      → binary_from "" bs ≡ some s
      → (t : String) × (btoa s ≡ some t) × (atob t ≡ some s)

module _ (p : WindowBase64) where
  abbrev pub buffer_to_base64 : List ℕ → Option String
  buffer_to_base64 buf = do bin ← binary_from "" buf; p.btoa bin

  abbrev pub base64_to_buffer : String → Option (List ℕ)
  base64_to_buffer b64 = do bin ← p.atob b64; some (char_codes bin)

from_char_code-code : (b : ℕ) → b < 256 → (c : Char) × (from_char_code b ≡ some c) × (code c ≡ b)
from_char_code-code b h =
    elim (dec_lt b 256)
      as (λ d.
        (c : Char) × (elim d [ yes k ↦ some (char b (byte-IsScalar b k)) | no _ ↦ none ] ≡ some c)
        × (code c ≡ b)) [ yes k ↦ (char b (byte-IsScalar b k), refl, refl) | no n ↦ absurd (n h) ]

char_codes-append :
    (s : String) (c : Char)
    → char_codes (text_append s (String.◌∷◌ c String.[])) ≡ char_codes s ++ ((code c % 256) ∷ [])
char_codes-append String.[] c = ap char_codes (append.nil (String.◌∷◌ c String.[]))
char_codes-append (String.◌∷◌ d s) c =
    ap char_codes (append.cons d s (String.◌∷◌ c String.[]))
    ∙ ap (λ l. (code d % 256) ∷ l) (char_codes-append s c)

byte_mod : (n b : ℕ) → n ≡ b → b < 256 → n % 256 ≡ b
byte_mod n b e h = omega arith

-- Every byte array has a text, whose characters have the bytes as numbers.
pub binary_from-codes :
    (bin : String) (bs : List ℕ)
    → All (λ b. b < 256) bs
    → (s : String) × (binary_from bin bs ≡ some s) × (char_codes s ≡ char_codes bin ++ bs)
binary_from-codes bin [] h = (bin, refl, sym (append-nil (char_codes bin)))
binary_from-codes bin (b ∷ bs) (h, hs) =
    let c = from_char_code-code b h in
    let next = text_append bin (String.◌∷◌ c.0 String.[]) in
    let r = binary_from-codes next bs hs in
    let same = byte_mod (code c.0) b c.2 h in
    (
      r.0,
      ap (λ o. o >>= λ d. binary_from (text_append bin (String.◌∷◌ d String.[])) bs) c.1 ∙ r.1,
      r.2
          ∙ ap (λ l. l ++ bs)
              (char_codes-append bin c.0 ∙ ap (λ n. char_codes bin ++ (n ∷ [])) same)
          ∙ append_assoc (char_codes bin) (b ∷ []) bs,
    )

-- Where `atob` undoes `btoa`, every byte array has a base64 text, and that text gives the array back.
pub base64_to_buffer-buffer_to_base64 :
    (p : WindowBase64) (bs : List ℕ)
    → All (λ b. b < 256) bs
    → (t : String) × (buffer_to_base64 p bs ≡ some t) × (base64_to_buffer p t ≡ some bs)
base64_to_buffer-buffer_to_base64 p bs h =
    let r = binary_from-codes "" bs h in
    let w = p.atob-btoa bs r.0 h r.1 in
    (
      w.0,
      ap (λ o. o >>= p.btoa) r.1 ∙ w.1,
      ap (λ o. o >>= λ bin. some (char_codes bin)) w.2 ∙ ap some r.2,
    )

-- The codec that the other modules take, as vault.ts makes it.
abbrev pub vault_base64 : WindowBase64 → Base64
vault_base64 p = record {
  encode = buffer_to_base64 p;
  decode = base64_to_buffer p;
  encode_bytes = base64_to_buffer-buffer_to_base64 p;
}
