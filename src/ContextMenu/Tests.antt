-- ===== src/ContextMenu/Tests.antt =====
-- The place of the menu at a concrete input.
use ep2pchat.Base.{false}
use ep2pchat.Shell.{right}
use ep2pchat.ContextMenu.{Viewport, Menu}

abbrev viewport : Viewport
viewport = record { inner_width = 1000; inner_height = 800 }

abbrev menu : Menu
menu = record { items = 5; visible = false; position = record { x = right 0; y = right 0 } }
