-- ===== src/ContextMenu.antt =====
-- components/ui/ContextMenu.tsx: where the menu is opened, and when it is closed.
pub mod Tests
use ep2pchat.Base.{ℕ, ◌+◌, ◌-◌, ◌*◌, ◌≤◌, ◌≡◌, Bool, true, false, List, [], ◌∷◌, if◌then◌else◌, leb}
use ep2pchat.Shell.{ClientX, right, left}

pub record Viewport : Type 0 where
  pub inner_width : ℕ
  pub inner_height : ℕ

pub record Position : Type 0 where
  pub x : ClientX
  pub y : ClientX

-- `ContextMenu (state)`
pub record Menu : Type 0 where
  pub items : ℕ
  pub visible : Bool
  pub position : Position

pub data MenuEvent : Type 0 where
  context_menu : ℕ → ℕ → MenuEvent
  click scroll choose : MenuEvent

abbrev pub menu_width : ℕ
menu_width = 220

abbrev pub menu_height : ℕ → ℕ
menu_height items = items * 40 + 10

-- `a - b`, which may be negative.
abbrev pub minus : ℕ → ℕ → ClientX
minus a b = if leb b a then right (a - b) else left (b - a)

-- `if (at + size > inner) at -= size`
abbrev pub shifted : ℕ → ℕ → ℕ → ClientX
shifted at size inner = if leb (at + size) inner then right at else minus at size

abbrev pub handle_context_menu : Viewport → ℕ → ℕ → Menu → Menu
handle_context_menu w x y m = record m {
  visible = true;
  position = record {
    x = shifted x menu_width w.inner_width;
    y = shifted y (menu_height m.items) w.inner_height;
  };
}

-- `handleClick` and `handleScroll`
abbrev pub close_menu : Menu → Menu
close_menu m = record m { visible = false }

-- An item of the menu is clicked: the event goes no further.
abbrev pub choose_item : Menu → Menu
choose_item m = record m { visible = false }

-- The listeners of the window for clicks and scrolls are there while the menu is shown.
abbrev pub menu_event : Viewport → MenuEvent → Menu → Menu
menu_event w (context_menu x y) m = handle_context_menu w x y m
menu_event w click m = if m.visible then close_menu m else m
menu_event w scroll m = if m.visible then close_menu m else m
menu_event w choose m = choose_item m

abbrev pub menu_events : Viewport → List MenuEvent → Menu → Menu
menu_events w [] m = m
menu_events w (e ∷ es) m = menu_events w es (menu_event w e m)

-- From `at` on, `size` is inside of what is `inner` long.
abbrev pub IsInside : ClientX → ℕ → ℕ → Type 0
IsInside (right at) size inner = at + size ≤ inner
IsInside (left at) size inner = ⊥

-- Where the menu is shown, it is inside of the viewport.
pub record IsShown (w : Viewport) (m : Menu) : Type 0 where
  pub across : m.visible ≡ true → IsInside m.position.x menu_width w.inner_width
  pub down : m.visible ≡ true → IsInside m.position.y (menu_height m.items) w.inner_height

-- The viewport is at least twice as wide and as high as the menu.
pub record Fits (w : Viewport) (items : ℕ) : Type 0 where
  pub wide : menu_width + menu_width ≤ w.inner_width
  pub high : menu_height items + menu_height items ≤ w.inner_height

-- A click with the other button is inside of the viewport.
abbrev pub IsOnPage : Viewport → MenuEvent → Type 0
IsOnPage w (context_menu x y) = (x ≤ w.inner_width) × (y ≤ w.inner_height)
IsOnPage w click = Unit
IsOnPage w scroll = Unit
IsOnPage w choose = Unit
