-- ===== src/Workflows/Kept/Tests.antt =====
-- The sets of muted and pinned contacts after a reload at concrete inputs. An array stands as an
-- object whose fields have its texts as names, after a stroke.
use ep2pchat.Base.{
  ◌≡◌, refl, ap, ◌∙◌, String, Option, none, some, List, [], ◌∷◌, string_dec, truthy-cons,
}
use ep2pchat.Base.Dict.{lookup, insert}
use ep2pchat.Samples.Objects.{Fields, stroke, put_fields, fields_of, fields_of-put_fields}
use ep2pchat.Workflows.Kept.{ArrayCodec, Toggles, mutes, pins, mount, handle_toggles}
use ep2pchat.Workflows.Kept.Reloaded.{IsCodec, Reloads, mount-handle_toggles}

abbrev as_fields : List String → Fields
as_fields [] = []
as_fields (s ∷ ss) = (s, none) ∷ as_fields ss

abbrev names : Fields → List String
names [] = []
names ((k, v) ∷ fs) = k ∷ names fs

names-as_fields : (ids : List String) → names (as_fields ids) ≡ ids
names-as_fields [] = refl
names-as_fields (s ∷ ss) = ap (λ l. s ∷ l) (names-as_fields ss)

abbrev read_array : String → Option (List String)
read_array String.[] = none
read_array (String.◌∷◌ c s) = some (names (fields_of s))

abbrev arrays : ArrayCodec
arrays = record {
  stringify = λ ids. String.◌∷◌ stroke (put_fields (as_fields ids));
  parse = read_array;
}

arrays-IsCodec : IsCodec arrays
arrays-IsCodec = record {
  parse-stringify = λ ids.
      ap (λ fs. some (names fs)) (fields_of-put_fields (as_fields ids))
      ∙ ap some (names-as_fields ids);
  stringify-truthy = λ ids. truthy-cons stroke (put_fields (as_fields ids));
}

-- The first start, with nothing stored.
abbrev first : Toggles
first = record {
  muted_contacts = [];
  pinned_contacts = [];
  local_storage =
      ("trustline.muted_contacts", arrays.stringify [])
      ∷ ("trustline.pinned_contacts", arrays.stringify [])
      ∷ [];
}

mount-handle_toggles_example :
    (t : Toggles) × (mount arrays
        (handle_toggles arrays (mutes "bob" ∷ pins "eve" ∷ mutes "bob" ∷ []) first).local_storage
      ≡ some t)
    × Reloads (handle_toggles arrays (mutes "bob" ∷ pins "eve" ∷ mutes "bob" ∷ []) first) t
unfolding mount lookup insert string_dec
mount-handle_toggles_example =
    mount-handle_toggles arrays arrays-IsCodec [] first
      (mutes "bob" ∷ pins "eve" ∷ mutes "bob" ∷ []) refl
