-- ===== src/Workflows/Kept.antt =====
-- useChatWorkflows.ts: the sets of muted and pinned contacts that localStorage keeps. Each effect runs
-- after the first rendering and after a change of its set.
pub mod Reloaded
pub mod Tests
use ep2pchat.Base.{
  String, Bool, true, false, Option, none, some, List, [], ◌∷◌, if◌then◌else◌, truthy,
}
use ep2pchat.Base.Dict.{lookup, insert}
use ep2pchat.Base.Distinct.{distinct}
use ep2pchat.Workflows.{toggle}

-- JSON on arrays of texts: `parse` throws (`none`) on other texts.
pub record ArrayCodec : Type 0 where
  pub stringify : List String → String
  pub parse : String → Option (List String)

-- The hook's two sets, and localStorage.
pub record Toggles : Type 0 where
  pub muted_contacts : List String
  pub pinned_contacts : List String
  pub local_storage : List (String × String)

-- `handleMuteToggle` or `handlePinToggle` of a contact.
pub data ToggleCall : Type 0 where
  mutes pins : String → ToggleCall

module _ (json : ArrayCodec) where
  abbrev as_set : Option (List String) → Option (List String)
  as_set none = none
  as_set (some ids) = some (distinct ids)

  -- `saved ? new Set(JSON.parse(saved)) : new Set()`
  abbrev pub saved_set : Option String → Option (List String)
  saved_set none = some []
  saved_set (some saved) = if truthy saved then as_set (json.parse saved) else some []

  abbrev keep_muted : Toggles → Toggles
  keep_muted s = record s {
    local_storage =
        insert "trustline.muted_contacts" (json.stringify s.muted_contacts) s.local_storage;
  }

  abbrev keep_pinned : Toggles → Toggles
  keep_pinned s = record s {
    local_storage =
        insert "trustline.pinned_contacts" (json.stringify s.pinned_contacts) s.local_storage;
  }

  abbrev pub mounted :
      Option (List String) → Option (List String) → List (String × String) → Option Toggles
  mounted (some muted) (some pinned) storage = some (
      keep_pinned (
        keep_muted
          (record { muted_contacts = muted; pinned_contacts = pinned; local_storage = storage })))
  mounted _ _ storage = none

  -- The first rendering; `none` where what is stored is no JSON.
  unfoldable pub mount : List (String × String) → Option Toggles
  mount storage =
      mounted (saved_set (lookup "trustline.muted_contacts" storage))
        (saved_set (lookup "trustline.pinned_contacts" storage)) storage

  abbrev pub handle_toggle : ToggleCall → Toggles → Toggles
  handle_toggle (mutes id) s = keep_muted (record s { muted_contacts = toggle id s.muted_contacts })
  handle_toggle (pins id) s =
      keep_pinned (record s { pinned_contacts = toggle id s.pinned_contacts })

  unfoldable pub handle_toggles : List ToggleCall → Toggles → Toggles
  handle_toggles [] s = s
  handle_toggles (c ∷ cs) s = handle_toggles cs (handle_toggle c s)
