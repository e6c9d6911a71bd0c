-- ===== src/Samples.antt =====
-- Instances of what the client takes from its platform, for the tests: a codec of bytes, JSON of
-- objects of texts, a cipher, and a ratchet that counts its messages in its session and writes the
-- associated data into the ciphertext.
pub mod Objects
use mathlib.Core.Path.{ap₂}
use Prim.Native.Char.{Char, code, nul, char}
use ep2pchat.Base.{
  ℕ, zero, suc, ◌+◌, ◌≡◌, refl, ap, ◌∙◌, ite, String, none, some, List, [], ◌∷◌, arith, string_dec,
  text_append,
}
use ep2pchat.Base.{Option, Bool, true, false, ◌<◌, dec_lt, ◌&&◌, All, subst, sym}
use ep2pchat.Base.Dict.{lookup}
use ep2pchat.Base.Codec.{Base64, Json}
use ep2pchat.Vault.Keys.{Cipher}
use ep2pchat.Orchestration.{Ratchet, LocalKeys}
use ep2pchat.Samples.Objects.{stroke, put_text, get_text}
pub use ep2pchat.Samples.Objects.{toy_json, put_fields}

-- A byte as that many strokes and a stop.
abbrev pub strokes : ℕ → String → String
strokes zero s = String.◌∷◌ nul s
strokes (suc n) s = String.◌∷◌ stroke (strokes n s)

abbrev pub text_of : List ℕ → String
text_of [] = ""
text_of (b ∷ bs) = strokes b (text_of bs)

-- The stop is the character of number 0.
abbrev pub read_byte : ℕ → (ℕ → List ℕ) → ℕ → List ℕ
read_byte zero rest n = n ∷ rest 0
read_byte (suc c) rest n = rest (suc n)

abbrev pub bytes_of : String → ℕ → List ℕ
bytes_of String.[] n = []
bytes_of (String.◌∷◌ c s) n = read_byte (code c) (bytes_of s) n

bytes-strokes : (b n : ℕ) (s : String) → bytes_of (strokes b s) n ≡ (b + n) ∷ bytes_of s 0
bytes-strokes zero n s = ap (λ m. m ∷ bytes_of s 0) (omega arith)
bytes-strokes (suc b) n s = bytes-strokes b (suc n) s ∙ ap (λ m. m ∷ bytes_of s 0) (omega arith)

pub bytes-text : (bs : List ℕ) → bytes_of (text_of bs) 0 ≡ bs
bytes-text [] = refl
bytes-text (b ∷ bs) = bytes-strokes b 0 (text_of bs) ∙ ap₂ ◌∷◌ (omega arith) (bytes-text bs)

abbrev pub toy_b64 : Base64
toy_b64 = record {
  encode = λ bs. some (text_of bs);
  decode = λ s. some (bytes_of s 0);
  encode_bytes = λ bs _. (text_of bs, refl, ap some (bytes-text bs));
}

-- The ciphertext is the associated data and the text.
abbrev pub opened : String → String → Option String
opened conversation ciphertext = elim (get_text ciphertext) [
  | none ↦ none
  | some (d, text) ↦ ite (string_dec d conversation) (some text) none
]

abbrev pub with_session : String → Option String → Option (String × String)
with_session session none = none
with_session session (some text) = some (text_append session "+", text)

abbrev pub toy_ratchet : Ratchet
toy_ratchet = record {
  Header = ℕ;
  bob_x3dh = λ identity pre_key opk sender ephemeral. some "shared";
  ratchet_init_receiver = λ shared public_key secret. some "session";
  alice_x3dh = λ identity device pre_key opk. some ("shared", "ephemeral");
  ratchet_init_sender = λ shared pre_key. some "session";
  ratchet_encrypt = λ session text conversation. some (record {
    new_session_json = text_append session "+";
    header = 0;
    ciphertext = put_text conversation text;
  });
  ratchet_decrypt =
      λ session h ciphertext conversation. with_session session (opened conversation ciphertext);
}

abbrev pub own_keys : LocalKeys
own_keys = record {
  identity_secret = "ik";
  signed_pre_key_public = "spk";
  signed_pre_key_secret = "sspk";
}

abbrev pub checked : Bool → List ℕ → Option (List ℕ)
checked true d = some d
checked false d = none

abbrev pub small : ℕ → Bool
small b = elim (dec_lt b 256) [ yes _ ↦ true | no _ ↦ false ]

abbrev pub all_small : List ℕ → Bool
all_small [] = true
all_small (b ∷ bs) = small b && all_small bs

pub all_small-All : (bs : List ℕ) → all_small bs ≡ true → All (λ b. b < 256) bs
all_small-All [] h = tt
all_small-All (b ∷ bs) h = elim (dec_lt b 256) [
  | yes p ↦ (p, all_small-All bs (ground arith))
  | no n ↦ absurd (ground arith)
]

pub checked-same : (b : Bool) (d c : List ℕ) → checked b d ≡ some c → d ≡ c
checked-same true d c h = cc
checked-same false d c h = cc

pub checked-true : (b : Bool) (d c : List ℕ) → checked b d ≡ some c → b ≡ true
checked-true true d c h = refl
checked-true false d c h = cc

-- A cipher that stores the bytes as they are, and accepts those below 256.
abbrev pub toy_cipher : Cipher
toy_cipher = record {
  parse_hex = λ s. 0;
  seal = λ key iv d. checked (all_small d) d;
  unseal = λ key iv d. some d;
  utf8 = λ s. bytes_of s 0;
  text_of = text_of;
  unseal-seal = λ key iv d c e. ap some (sym (checked-same (all_small d) d c e));
  seal_bytes = λ key iv d c e.
      subst (All (λ b. b < 256)) (checked-same (all_small d) d c e)
        (all_small-All d (checked-true (all_small d) d c e));
}
