-- ===== src/Workflows/Kept/Reloaded.antt =====
-- useChatWorkflows.ts: the sets after a reload are those before.
use ep2pchat.Base.{
  ◌≡◌, ◌≢◌, refl, ap, subst, ◌∙◌, String, true, false, Option, none, some, List, [], ◌∷◌, truthy,
  arith, string_dec, All, Bool-cases, inl, inr, if-true,
}
use ep2pchat.Base.Dict.{lookup, lookup-insert}
use ep2pchat.Base.Distinct.{
  IsDistinct, distinct-IsDistinct, distinct_self, append-IsDistinct, keep_if-IsDistinct,
}
use ep2pchat.Workflows.{has, toggle}
use ep2pchat.Workflows.Kept.{
  ArrayCodec, Toggles, ToggleCall, mutes, pins, saved_set, mounted, mount, handle_toggle,
  handle_toggles, as_set, keep_muted, keep_pinned,
}

has-others : (id : String) (ids : List String) → has id ids ≡ false → All (λ y. y ≢ id) ids
has-others id [] h = tt
has-others id (y ∷ ys) h = ((λ e. ground arith), has-others id ys (ground arith))

toggle-IsDistinct : (id : String) (ids : List String) → IsDistinct ids → IsDistinct (toggle id ids)
unfolding toggle
toggle-IsDistinct id ids h = elim (Bool-cases (has id ids)) [
  | inl e ↦ rw e (keep_if-IsDistinct _ ids h)
  | inr e ↦ rw e (append-IsDistinct id ids h (has-others id ids e))
]

-- `JSON.parse` undoes `JSON.stringify`, whose text of an array is not empty.
pub record IsCodec (json : ArrayCodec) : Type 0 where
  pub parse-stringify : (ids : List String) → json.parse (json.stringify ids) ≡ some ids
  pub stringify-truthy : (ids : List String) → truthy (json.stringify ids) ≡ true

-- The sets of `t` are those of `s`.
pub record Reloads (s t : Toggles) : Type 0 where
  pub muted : t.muted_contacts ≡ s.muted_contacts
  pub pinned : t.pinned_contacts ≡ s.pinned_contacts

module _ (json : ArrayCodec) (codec : IsCodec json) where
  record IsKept (s : Toggles) : Type 0 where
    muted :
        lookup "trustline.muted_contacts" s.local_storage ≡ some (json.stringify s.muted_contacts)
    pinned :
        lookup "trustline.pinned_contacts" s.local_storage ≡ some (json.stringify s.pinned_contacts)
    muted_apart : IsDistinct s.muted_contacts
    pinned_apart : IsDistinct s.pinned_contacts

  saved_set-kept :
      (o : Option String) (ids : List String)
      → o ≡ some (json.stringify ids)
      → IsDistinct ids
      → saved_set json o ≡ some ids
  saved_set-kept o ids e h =
      ap (saved_set json) e
      ∙ if-true (truthy (json.stringify ids)) (as_set json (json.parse (json.stringify ids)))
          (some []) (codec.stringify-truthy ids)
      ∙ ap (as_set json) (codec.parse-stringify ids)
      ∙ ap some (distinct_self ids h)

  -- The effect of one set after that set was changed; the other one's entry stays.
  keep_muted-IsKept :
      (s : Toggles)
      → lookup "trustline.pinned_contacts" s.local_storage ≡ some (json.stringify s.pinned_contacts)
      → IsDistinct s.muted_contacts
      → IsDistinct s.pinned_contacts
      → IsKept (keep_muted json s)
  unfolding string_dec
  keep_muted-IsKept s p h k =
      let text = json.stringify s.muted_contacts in
      record {
        muted =
            lookup-insert "trustline.muted_contacts" "trustline.muted_contacts" text
              s.local_storage;
        pinned =
            lookup-insert "trustline.muted_contacts" "trustline.pinned_contacts" text
              s.local_storage
            ∙ p;
        muted_apart = h;
        pinned_apart = k;
      }

  keep_pinned-IsKept :
      (s : Toggles)
      → lookup "trustline.muted_contacts" s.local_storage ≡ some (json.stringify s.muted_contacts)
      → IsDistinct s.muted_contacts
      → IsDistinct s.pinned_contacts
      → IsKept (keep_pinned json s)
  unfolding string_dec
  keep_pinned-IsKept s p h k =
      let text = json.stringify s.pinned_contacts in
      record {
        muted =
            lookup-insert "trustline.pinned_contacts" "trustline.muted_contacts" text
              s.local_storage
            ∙ p;
        pinned =
            lookup-insert "trustline.pinned_contacts" "trustline.pinned_contacts" text
              s.local_storage;
        muted_apart = h;
        pinned_apart = k;
      }

  handle_toggle-IsKept : (c : ToggleCall) (s : Toggles) → IsKept s → IsKept (handle_toggle json c s)
  handle_toggle-IsKept (mutes id) s h =
      keep_muted-IsKept (record s { muted_contacts = toggle id s.muted_contacts }) h.pinned
        (toggle-IsDistinct id s.muted_contacts h.muted_apart) h.pinned_apart
  handle_toggle-IsKept (pins id) s h =
      keep_pinned-IsKept (record s { pinned_contacts = toggle id s.pinned_contacts }) h.muted
        h.muted_apart (toggle-IsDistinct id s.pinned_contacts h.pinned_apart)

  handle_toggles-IsKept :
      (cs : List ToggleCall) (s : Toggles) → IsKept s → IsKept (handle_toggles json cs s)
  unfolding handle_toggles
  handle_toggles-IsKept [] s h = h
  handle_toggles-IsKept (c ∷ cs) s h =
      handle_toggles-IsKept cs (handle_toggle json c s) (handle_toggle-IsKept c s h)

  -- What a rendering begins with.
  abbrev AreApart : Option (List String) → Type 0
  AreApart none = Unit
  AreApart (some ids) = IsDistinct ids

  as_set-AreApart : (o : Option (List String)) → AreApart (as_set json o)
  as_set-AreApart none = tt
  as_set-AreApart (some ids) = distinct-IsDistinct ids

  saved_set-AreApart : (o : Option String) → AreApart (saved_set json o)
  saved_set-AreApart none = tt
  saved_set-AreApart (some saved) = elim (Bool-cases (truthy saved)) [
    | inl e ↦ rw e (as_set-AreApart (json.parse saved))
    | inr e ↦ rw e tt
  ]

  mounted-IsKept :
      (a b : Option (List String)) (storage : List (String × String)) (s : Toggles)
      → AreApart a
      → AreApart b
      → mounted json a b storage ≡ some s
      → IsKept s
  unfolding string_dec
  mounted-IsKept none b storage s h k e = cc
  mounted-IsKept (some muted) none storage s h k e = cc
  mounted-IsKept (some muted) (some pinned) storage s h k e =
      let start : Toggles = record {
        muted_contacts = muted;
        pinned_contacts = pinned;
        local_storage = storage;
      } in
      let text = json.stringify muted in
      subst (λ (o : Option Toggles). elim o [ none ↦ Unit | some t ↦ IsKept t ]) e
        (keep_pinned-IsKept (keep_muted json start)
          (lookup-insert "trustline.muted_contacts" "trustline.muted_contacts" text storage) h k)

  mount-kept :
      (s : Toggles) → IsKept s → (t : Toggles) × (mount json s.local_storage ≡ some t) × Reloads s t
  unfolding mount
  mount-kept s h =
      let storage = s.local_storage in
      let start : Toggles = record {
        muted_contacts = s.muted_contacts;
        pinned_contacts = s.pinned_contacts;
        local_storage = storage;
      } in
      let muted =
        saved_set-kept (lookup "trustline.muted_contacts" storage) s.muted_contacts h.muted
          h.muted_apart in
      let pinned =
        saved_set-kept (lookup "trustline.pinned_contacts" storage) s.pinned_contacts h.pinned
          h.pinned_apart in
      (
        keep_pinned json (keep_muted json start),
        ap
              (λ o.
                mounted json o (saved_set json (lookup "trustline.pinned_contacts" storage))
                  storage)
              muted
            ∙ ap (λ o. mounted json (some s.muted_contacts) o storage) pinned,
        record { muted = refl; pinned = refl },
      )

  -- Where JSON.parse undoes JSON.stringify, after a rendering that worked and any toggles, a reload
  -- works and begins with the same muted and pinned contacts.
  pub mount-handle_toggles :
      (storage : List (String × String)) (s : Toggles) (cs : List ToggleCall)
      → mount json storage ≡ some s
      → (t : Toggles) × (mount json (handle_toggles json cs s).local_storage ≡ some t)
        × Reloads (handle_toggles json cs s) t
  unfolding mount
  mount-handle_toggles storage s cs e =
      let start =
        mounted-IsKept (saved_set json (lookup "trustline.muted_contacts" storage))
          (saved_set json (lookup "trustline.pinned_contacts" storage)) storage s
          (saved_set-AreApart (lookup "trustline.muted_contacts" storage))
          (saved_set-AreApart (lookup "trustline.pinned_contacts" storage)) e in
      mount-kept (handle_toggles json cs s) (handle_toggles-IsKept cs s start)
