-- ===== src/Identity.antt =====
-- What two people compare to know that nobody stands between them:
-- components/ui/SafetyNumberModal.tsx, `deriveSafetyNumber`, and features/chat/IdentityModal.tsx,
-- `calculateFingerprint`. `encode` is that of a TextEncoder, and `sha256` is
-- crypto.subtle.digest("SHA-256", ·), on lists of bytes.
pub mod Symmetric
pub mod Unavailable
pub mod Tests
use Prim.Native.String
use Prim.Native.Char.{code}
use ep2pchat.Base.{
  ℕ, zero, suc, ◌+◌, ◌*◌, ◌/◌, ◌%◌, String, Bool, true, false, Option, none, some, List, [], ◌∷◌,
  map, if◌then◌else◌, or_else, truthy, text_append, length, leb, nat_eq, not,
}

-- Whether `s` stands before `t` in the order of their characters, in which `sort()` sorts texts.
pub text_before : String → String → Bool
text_before s String.[] = false
text_before String.[] (String.◌∷◌ d t) = true
text_before (String.◌∷◌ c s) (String.◌∷◌ d t) =
    if nat_eq (code c) (code d) then text_before s t else leb (code c) (code d)

-- `[a, b].sort()`
pub sorted_pair : String → String → String × String
sorted_pair a b = if text_before b a then (b, a) else (a, b)

-- `keys.join("|")`
abbrev pub joined : String × String → String
joined p = text_append p.0 (text_append "|" p.1)

-- `bytes[i]`, of which the operators take a missing one as 0.
abbrev pub byte_at : ℕ → List ℕ → ℕ
byte_at i [] = 0
byte_at zero (b ∷ bs) = b
byte_at (suc i) (b ∷ bs) = byte_at i bs

-- The text of the one character of `s` with the number `i`.
abbrev pub char_at : ℕ → String → String
char_at i String.[] = ""
char_at zero (String.◌∷◌ c s) = String.◌∷◌ c ""
char_at (suc i) (String.◌∷◌ c s) = char_at i s

abbrev digit : ℕ → String
digit n = char_at (n % 10) "0123456789"

-- `value.toString().padStart(5, "0")` of a value of at most five digits.
abbrev pub five_digits : ℕ → String
five_digits v = text_append (digit (v / 10000)) (
    text_append (digit (v / 1000))
      (text_append (digit (v / 100)) (text_append (digit (v / 10)) (digit v))))

-- The value of block `i`; `b << 8 | c` on bytes.
abbrev pub block_value : List ℕ → ℕ → ℕ
block_value bytes i =
    let offset = i * 2 % length bytes in
    (byte_at offset bytes * 256 + byte_at ((offset + 1) % length bytes) bytes) % 100000

-- The numbers from `i` on, `n` of them.
abbrev count_up : ℕ → ℕ → List ℕ
count_up i zero = []
count_up i (suc n) = i ∷ count_up (suc i) n

-- `b.toString(16).padStart(2, '0')` of a byte, in upper case.
abbrev hex_byte : ℕ → String
hex_byte b = text_append (char_at (b / 16) "0123456789ABCDEF") (char_at (b % 16) "0123456789ABCDEF")

abbrev hex_text : List ℕ → String
hex_text [] = ""
hex_text (b ∷ bs) = text_append (hex_byte b) (hex_text bs)

-- `hex.match(/.{1,4}/g).join(' ')`, with `n` characters left for the block.
abbrev in_blocks : ℕ → String → String
in_blocks n String.[] = ""
in_blocks zero (String.◌∷◌ c s) = text_append " " (String.◌∷◌ c (in_blocks 3 s))
in_blocks (suc n) (String.◌∷◌ c s) = String.◌∷◌ c (in_blocks n s)

-- `s.substring(0, n)`
abbrev first_chars : ℕ → String → String
first_chars zero s = ""
first_chars (suc n) String.[] = ""
first_chars (suc n) (String.◌∷◌ c s) = String.◌∷◌ c (first_chars n s)

module _ (encode : String → List ℕ) (sha256 : List ℕ → List ℕ) where
  unfoldable pub derive_safety_number : String → String → List String
  derive_safety_number key_a key_b =
      let hash1 = sha256 (encode (joined (sorted_pair key_a key_b))) in
      let bytes = sha256 hash1 in map (λ i. five_digits (block_value bytes i)) (count_up 0 12)

  -- The text of the hash.
  unfoldable pub fingerprint_of : String → String
  fingerprint_of text = first_chars 44 (in_blocks 4 (hex_text (sha256 (encode text))))

  -- `device_key` is `contact.devices?.[0]?.identity_key`.
  unfoldable pub calculate_fingerprint : String → Option String → String
  calculate_fingerprint identity_public device_key =
      let keys = sorted_pair identity_public (or_else device_key "") in
      if not (truthy keys.1) then "RECIPIENT_KEYS_UNAVAILABLE" else fingerprint_of (joined keys)
