-- ===== src/Admin.antt =====
-- apps/desktop/src/features/admin/AdminPanel.tsx: the data of the tabs and what is done with a user.
-- What the server answers is an argument; a request that is made again is answered anew.
pub mod Lists
pub mod Settings
use ep2pchat.Base.{
  String, Bool, true, false, Option, none, some, List, [], ◌∷◌, head?, if◌then◌else◌, or_else,
  or_text,
}
use ep2pchat.Workflows.{Answer, loaded, failed}

pub data AdminTab : Type 0 where
  command admission registry ledger policies : AdminTab

pub record UserDevice : Type 0 where
  pub device_id : String

-- What the tabs hold: the three lists of the first one, or one list.
pub data PanelData (U L : Type 0) : Type 0 where
  overview : List U → List U → List L → PanelData U L
  users : List U → PanelData U L
  logs : List L → PanelData U L
  nothing : PanelData U L

-- The answers of one reading: pending users, all users and audit logs.
pub record Sources (U L : Type 0) : Type 0 where
  pub pending : Answer (Option (List U))
  pub all : Answer (Option (List U))
  pub audit : Answer (Option (List L))

pub record Panel (U L : Type 0) : Type 0 where
  pub tab : AdminTab
  pub content : PanelData U L
  pub is_loading : Bool
  pub panel_error : String
  pub selected_user : Option U
  pub user_devices : List UserDevice

module _ {U L : Type 0} where
  -- `err.message || text`
  abbrev fault : Option String → String → Panel U L → Panel U L
  fault m text p = record p { panel_error = or_else (or_text m none) text }

  abbrev read_list :
      {A : Type 0} → (List A → PanelData U L) → Answer (Option (List A)) → Answer (PanelData U L)
  read_list f (loaded xs) = loaded (f (or_else xs []))
  read_list f (failed m) = failed m

  -- The three requests together: the first that fails is the error.
  abbrev read_overview :
      Answer (Option (List U))
      → Answer (Option (List U))
      → Answer (Option (List L))
      → Answer (PanelData U L)
  read_overview (loaded p) (loaded u) (loaded l) =
      loaded (overview (or_else p []) (or_else u []) (or_else l []))
  read_overview (failed m) u l = failed m
  read_overview (loaded p) (failed m) l = failed m
  read_overview (loaded p) (loaded u) (failed m) = failed m

  unfoldable pub read_tab : AdminTab → Sources U L → Answer (PanelData U L)
  read_tab command s = read_overview s.pending s.all s.audit
  read_tab admission s = read_list users s.pending
  read_tab registry s = read_list users s.all
  read_tab ledger s = read_list logs s.audit
  read_tab policies s = loaded nothing

  abbrev filled : Answer (PanelData U L) → Panel U L → Panel U L
  filled (loaded x) p = record p { content = x }
  filled (failed m) p =
      record (fault m "Running without backend connection. Cannot fetch admin data." p) {
        content = nothing;
      }

  unfoldable pub fetch_data : Sources U L → Panel U L → Panel U L
  fetch_data s p =
      record (filled (read_tab p.tab s) (record p { is_loading = true; panel_error = "" })) {
        is_loading = false;
      }

  unfoldable pub set_tab : AdminTab → Sources U L → Panel U L → Panel U L
  set_tab tab s p = fetch_data s (record p { tab = tab })

  abbrev changed : Answer (Unit {0}) → String → Sources U L → Panel U L → Panel U L
  changed (loaded _) text s p = fetch_data s p
  changed (failed m) text s p = fault m text p

  unfoldable pub handle_approve : Answer (Unit {0}) → Sources U L → Panel U L → Panel U L
  handle_approve answer s p = changed answer "Approval failed." s p

  -- `confirmed` is what the user answers.
  unfoldable pub handle_reject : Bool → Answer (Unit {0}) → Sources U L → Panel U L → Panel U L
  handle_reject confirmed answer s p =
      if confirmed then changed answer "Rejection failed." s p else p

  abbrev informed : Answer (Option (List UserDevice)) → Panel U L → Panel U L
  informed (loaded ds) p = record p { user_devices = or_else ds [] }
  informed (failed m) p = fault m "Failed to load device info." (record p { user_devices = [] })

  unfoldable pub handle_show_info : U → Answer (Option (List UserDevice)) → Panel U L → Panel U L
  handle_show_info user answer p = informed answer (record p { selected_user = some user })

  abbrev revoke_at :
      Option UserDevice → (UserDevice → Answer (Unit {0})) → Sources U L → Panel U L → Panel U L
  revoke_at none revoke s p =
      fault (some "No active device found for this user.") "Failed to revoke device." p
  revoke_at (some d) revoke s p = elim (revoke d) [
    | loaded _ ↦ fetch_data s (record p { selected_user = none })
    | failed m ↦ fault m "Failed to revoke device." p
  ]

  abbrev revoke_with :
      Answer (Option (List UserDevice))
      → (UserDevice → Answer (Unit {0}))
      → Sources U L
      → Panel U L
      → Panel U L
  revoke_with (loaded ds) revoke s p = revoke_at (head? (or_else ds [])) revoke s p
  revoke_with (failed m) revoke s p = fault m "Failed to revoke device." p

  -- The first device of the user; `revoke` is what the server answers for it.
  unfoldable pub handle_revoke :
      Answer (Option (List UserDevice))
      → (UserDevice → Answer (Unit {0}))
      → Sources U L
      → Panel U L
      → Panel U L
  handle_revoke answer revoke s p = revoke_with answer revoke s p
