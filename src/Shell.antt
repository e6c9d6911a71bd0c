-- ===== src/Shell.antt =====
-- layouts/MainShell.tsx: the edge of the sidebar that is dragged with the mouse. `clientX` is an
-- integer, negative where the mouse is left of the window; the listeners that a press adds work on
-- the one reference `sidebarResizeState`, and leave with the release that empties it.
pub mod Dragged
pub mod Tests
use ep2pchat.Base.{ℕ, ◌+◌, ◌-◌, min, Bool, Option, none, some, List, [], ◌∷◌, if◌then◌else◌, leb}
use ep2pchat.Stores.{UiState, set_sidebar_width_px}

-- `right n` is n, and `left n` is -n.
pub data ClientX : Type 0 where
  right left : ℕ → ClientX

pub record ResizeState : Type 0 where
  pub start_x : ClientX
  pub start_width : ℕ

pub record ShellState : Type 0 where
  pub ui : UiState
  pub sidebar_resize_state : Option ResizeState

pub data MouseEvent : Type 0 where
  press move : ClientX → MouseEvent
  release : MouseEvent

-- `startWidth + (clientX - startX)`, but 0 where that is negative.
abbrev pub moved_width : ℕ → ClientX → ClientX → ℕ
moved_width width (right s) (right x) = width + x - s
moved_width width (right s) (left x) = width - (s + x)
moved_width width (left s) (right x) = width + x + s
moved_width width (left s) (left x) = width + s - x

abbrev max_of : ℕ → ℕ → ℕ
max_of a b = if leb a b then b else a

-- `Math.min(420, Math.max(220, n))`
abbrev pub clamped : ℕ → ℕ
clamped n = min 420 (max_of 220 n)

-- `handleSidebarResizeStart`
abbrev pub handle_sidebar_resize_start : ClientX → ShellState → ShellState
handle_sidebar_resize_start x s = if s.ui.is_narrow_layout then s else record s {
  sidebar_resize_state = some (record { start_x = x; start_width = s.ui.sidebar_width_px });
}

abbrev moved_by : Option ResizeState → ClientX → ShellState → ShellState
moved_by none x s = s
moved_by (some r) x s = record s {
  ui = set_sidebar_width_px (clamped (moved_width r.start_width r.start_x x)) s.ui;
}

-- `handleMouseMove`
abbrev pub handle_mouse_move : ClientX → ShellState → ShellState
handle_mouse_move x s = moved_by s.sidebar_resize_state x s

-- `handleMouseUp`
abbrev pub handle_mouse_up : ShellState → ShellState
handle_mouse_up s = record s { sidebar_resize_state = none }

abbrev pub mouse : MouseEvent → ShellState → ShellState
mouse (press x) s = handle_sidebar_resize_start x s
mouse (move x) s = handle_mouse_move x s
mouse release s = handle_mouse_up s

unfoldable pub mouses : List MouseEvent → ShellState → ShellState
mouses [] s = s
mouses (e ∷ es) s = mouses es (mouse e s)
