-- ===== src/Shell/Dragged.antt =====
-- layouts/MainShell.tsx: the width of the sidebar while its edge is dragged.
use ep2pchat.Base.{ℕ, ◌≤◌, ◌≡◌, Option, none, some, List, [], ◌∷◌, arith}
use ep2pchat.Shell.{
  ClientX, ShellState, MouseEvent, ResizeState, press, move, release, moved_width, clamped, mouse,
  mouses, moved_by,
}

pub record IsWithin (s : ShellState) : Type 0 where
  pub lower : 220 ≤ s.ui.sidebar_width_px
  pub upper : s.ui.sidebar_width_px ≤ 420

clamped_lower : (n : ℕ) → 220 ≤ clamped n
clamped_lower n = ground arith

clamped_upper : (n : ℕ) → clamped n ≤ 420
clamped_upper n = ground arith

moved-IsWithin :
    (o : Option ResizeState) (x : ClientX) (s : ShellState) → IsWithin s → IsWithin (moved_by o x s)
moved-IsWithin none x s h = h
moved-IsWithin (some r) x s h = record {
  lower = clamped_lower (moved_width r.start_width r.start_x x);
  upper = clamped_upper (moved_width r.start_width r.start_x x);
}

mouse-IsWithin : (e : MouseEvent) (s : ShellState) → IsWithin s → IsWithin (mouse e s)
mouse-IsWithin (press x) s h = record {
  lower = ground (arith, h.lower);
  upper = ground (arith, h.upper);
}
mouse-IsWithin (move x) s h = moved-IsWithin s.sidebar_resize_state x s h
mouse-IsWithin release s h = record { lower = h.lower; upper = h.upper }

-- Whatever the mouse does, the width stays between 220 and 420 pixels if it was.
pub mouses-IsWithin : (es : List MouseEvent) (s : ShellState) → IsWithin s → IsWithin (mouses es s)
unfolding mouses
mouses-IsWithin [] s h = h
mouses-IsWithin (e ∷ es) s h = mouses-IsWithin es (mouse e s) (mouse-IsWithin e s h)

-- The moves of a drag: the reference stays, and the width is that of the last move.
record IsDragged (r : ResizeState) (s : ShellState) (w : ℕ) : Type 0 where
  held : s.sidebar_resize_state ≡ some r
  width : s.ui.sidebar_width_px ≡ w
