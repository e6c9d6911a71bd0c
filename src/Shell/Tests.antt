-- ===== src/Shell/Tests.antt =====
-- The sidebar's edge at concrete positions.
use ep2pchat.Base.{none}
use ep2pchat.Stores.{ui_initial}
use ep2pchat.Shell.{ShellState}

abbrev shell : ShellState
shell = record { ui = ui_initial; sidebar_resize_state = none }
