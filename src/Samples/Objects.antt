-- ===== src/Samples/Objects.antt =====
-- JSON objects of texts as one text, for the tests: a character is written after a stroke, and a
-- text ends with the character of number 0.
use Prim.Native.Char.{Char, char, code, nul}
use ep2pchat.Base.{
  ℕ, zero, suc, ◌≤◌, ◌<◌, ◌≡◌, refl, ap, ◌∙◌, String, Option, none, some, List, [], ◌∷◌, arith,
  length,
}
use ep2pchat.Base.Codec.{Json, entry}

abbrev pub stroke : Char
stroke = char 105 tt

abbrev pub put_text : String → String → String
put_text String.[] rest = String.◌∷◌ nul rest
put_text (String.◌∷◌ c s) rest = String.◌∷◌ stroke (String.◌∷◌ c (put_text s rest))

-- A text and what follows it.
abbrev pub with_char : Char → Option (String × String) → Option (String × String)
with_char c none = none
with_char c (some (s, rest)) = some (String.◌∷◌ c s, rest)

abbrev pub get_text : String → Option (String × String)
get_text String.[] = none
get_text (String.◌∷◌ c String.[]) = elim (code c) [ zero ↦ some ("", "") | suc _ ↦ none ]
get_text (String.◌∷◌ c (String.◌∷◌ d s)) = elim (code c) [
  | zero ↦ some ("", String.◌∷◌ d s)
  | suc _ ↦ with_char d (get_text s)
]

abbrev pub put_fields : List (String × Option String) → String
put_fields [] = ""
put_fields ((k, none) ∷ fs) = put_text k (String.◌∷◌ nul (put_fields fs))
put_fields ((k, some v) ∷ fs) = put_text k (String.◌∷◌ stroke (put_text v (put_fields fs)))

abbrev pub Fields : Type 0
Fields = List (String × Option String)

abbrev pub value_next : (String → Fields) → String → Option (String × String) → Fields
value_next more k none = []
value_next more k (some (v, rest)) = (k, some v) ∷ more rest

abbrev pub mark_next : (String → Fields) → String → String → Fields
mark_next more k String.[] = []
mark_next more k (String.◌∷◌ c rest) = elim (code c) [
  | zero ↦ (k, none) ∷ more rest
  | suc _ ↦ value_next more k (get_text rest)
]

abbrev pub key_next : (String → Fields) → Option (String × String) → Fields
key_next more none = []
key_next more (some (k, rest)) = mark_next more k rest

abbrev pub get_fields : ℕ → String → Fields
get_fields zero s = []
get_fields (suc n) s = key_next (get_fields n) (get_text s)

abbrev pub size : String → ℕ
size String.[] = 0
size (String.◌∷◌ c s) = suc (size s)

pub get-put_text : (s rest : String) → get_text (put_text s rest) ≡ some (s, rest)
get-put_text String.[] String.[] = refl
get-put_text String.[] (String.◌∷◌ d rest) = refl
get-put_text (String.◌∷◌ c s) rest = ap (with_char c) (get-put_text s rest)

get-put_fields :
    (n : ℕ) (fs : List (String × Option String)) → length fs ≤ n → get_fields n (put_fields fs) ≡ fs
get-put_fields zero [] h = refl
get-put_fields zero (f ∷ fs) h = absurd (omega arith)
get-put_fields (suc n) [] h = refl
get-put_fields (suc n) ((k, none) ∷ fs) h =
    ap (key_next (get_fields n)) (get-put_text k (String.◌∷◌ nul (put_fields fs)))
    ∙ ap (λ l. (k, none) ∷ l) (get-put_fields n fs (omega arith))
get-put_fields (suc n) ((k, some v) ∷ fs) h =
    ap (key_next (get_fields n)) (get-put_text k (String.◌∷◌ stroke (put_text v (put_fields fs))))
    ∙ ap (value_next (get_fields n) k) (get-put_text v (put_fields fs))
    ∙ ap (λ l. (k, some v) ∷ l) (get-put_fields n fs (omega arith))

size-put_text : (s rest : String) → size rest < size (put_text s rest)
size-put_text String.[] rest = omega arith
size-put_text (String.◌∷◌ c s) rest = omega (arith, size-put_text s rest)

length-put_fields : (fs : List (String × Option String)) → length fs ≤ size (put_fields fs)
length-put_fields [] = omega arith
length-put_fields ((k, none) ∷ fs) =
    omega (arith, length-put_fields fs, size-put_text k (String.◌∷◌ nul (put_fields fs)))
length-put_fields ((k, some v) ∷ fs) = omega (
  arith,
  length-put_fields fs,
  size-put_text v (put_fields fs),
  size-put_text k (String.◌∷◌ stroke (put_text v (put_fields fs))),
)

abbrev pub fields_of : String → List (String × Option String)
fields_of s = get_fields (size s) s

pub fields_of-put_fields : (fs : Fields) → fields_of (put_fields fs) ≡ fs
fields_of-put_fields fs = get-put_fields (size (put_fields fs)) fs (length-put_fields fs)

pub entry-put_fields :
    (fs : List (String × Option String)) (k : String)
    → entry k (fields_of (put_fields fs)) ≡ entry k fs
entry-put_fields fs k = ap (entry k) (fields_of-put_fields fs)

-- A value is the text of its object.
abbrev pub toy_json : Json
toy_json = record {
  Value = String;
  parse = some;
  stringify = λ v. v;
  field = λ v k. entry k (fields_of v);
  member = λ v k. none;
  empty = "";
  object = put_fields;
  parse-stringify = λ v. refl;
  field-empty = λ k. refl;
  field-object = entry-put_fields;
  member-object = λ fs k. refl;
}
