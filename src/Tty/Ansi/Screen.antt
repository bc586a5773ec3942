-- ===== src/Tty/Ansi/Screen.antt =====
-- ape/tty/ansi.rs: the cursor stays on the screen.
use ape.Base.{ℕ, ◌≤◌, List, [], ◌∷◌, arith, max}
use ape.Tty.State.{TtyCompatState}
use ape.Tty.Ansi.{
  rows_max, cols_max, clamp_row, clamp_col, set_row, set_col, respond, handle_printable, execute,
  save_cursor, restore_cursor, window_report, Csi, csi_command, device_attributes, window, position,
  up, down, right, left, next_line, previous_line, column, row, save, restore, ignored,
  csi_dispatch, csi_of, esc_dispatch, Event, print, executes, csi, esc, other, perform, perform_all,
  process_output,
}

-- Rows and columns count from 1; a screen has at least one of each.
abbrev pub IsOnScreen : TtyCompatState → Type 0
IsOnScreen state =
    (1 ≤ state.cursor_row)
    × (state.cursor_row ≤ max state.winsize.rows 1)
    × (1 ≤ state.cursor_col)
    × (state.cursor_col ≤ max state.winsize.cols 1)

set_row-IsOnScreen : (s : TtyCompatState) (r : ℕ) → IsOnScreen s → IsOnScreen (set_row s r)
unfolding set_row clamp_row rows_max
set_row-IsOnScreen s r (a, b, c, d) = (omega arith, omega arith, c, d)

set_col-IsOnScreen : (s : TtyCompatState) (c : ℕ) → IsOnScreen s → IsOnScreen (set_col s c)
unfolding set_col clamp_col cols_max
set_col-IsOnScreen s c (a, b, _, _) = (a, b, omega arith, omega arith)

first_col-IsOnScreen :
    (s : TtyCompatState) (r : ℕ)
    → IsOnScreen s
    → IsOnScreen (record (set_row s r) { cursor_col = 1 })
unfolding set_row clamp_row rows_max
first_col-IsOnScreen s r (a, b, c, d) = (omega arith, omega arith, omega arith, omega arith)

respond-IsOnScreen :
    (s : TtyCompatState) (bytes : List ℕ) → IsOnScreen s → IsOnScreen (respond s bytes)
unfolding respond
respond-IsOnScreen s bytes h = h

restore_cursor-IsOnScreen : (s : TtyCompatState) → IsOnScreen (restore_cursor s)
unfolding restore_cursor clamp_row clamp_col rows_max cols_max
restore_cursor-IsOnScreen s = (omega arith, omega arith, omega arith, omega arith)

print-IsOnScreen : (s : TtyCompatState) → IsOnScreen s → IsOnScreen (handle_printable s)
unfolding handle_printable set_row clamp_row rows_max cols_max
print-IsOnScreen s (a, b, c, d) = ground arith

execute-IsOnScreen : (s : TtyCompatState) (byte : ℕ) → IsOnScreen s → IsOnScreen (execute s byte)
unfolding execute set_row set_col clamp_row clamp_col rows_max cols_max
execute-IsOnScreen s byte (a, b, c, d) = ground arith

window_report-IsOnScreen :
    (s : TtyCompatState) (query : ℕ) → IsOnScreen s → IsOnScreen (window_report s query)
unfolding window_report respond
window_report-IsOnScreen s query (a, b, c, d) = ground arith

csi_command-IsOnScreen :
    (s : TtyCompatState) (params : List (List ℕ)) (inter : List ℕ) (command : Csi)
    → IsOnScreen s
    → IsOnScreen (csi_command s params inter command)
unfolding csi_command save_cursor
csi_command-IsOnScreen s params [] device_attributes h = respond-IsOnScreen s _ h
csi_command-IsOnScreen s params (x ∷ xs) device_attributes h = respond-IsOnScreen s _ h
csi_command-IsOnScreen s params inter window h = window_report-IsOnScreen s _ h
csi_command-IsOnScreen s params inter position h = set_col-IsOnScreen _ _ (set_row-IsOnScreen s _ h)
csi_command-IsOnScreen s params inter up h = set_row-IsOnScreen s _ h
csi_command-IsOnScreen s params inter down h = set_row-IsOnScreen s _ h
csi_command-IsOnScreen s params inter right h = set_col-IsOnScreen s _ h
csi_command-IsOnScreen s params inter left h = set_col-IsOnScreen s _ h
csi_command-IsOnScreen s params inter next_line h = first_col-IsOnScreen s _ h
csi_command-IsOnScreen s params inter previous_line h = first_col-IsOnScreen s _ h
csi_command-IsOnScreen s params inter column h = set_col-IsOnScreen s _ h
csi_command-IsOnScreen s params inter row h = set_row-IsOnScreen s _ h
csi_command-IsOnScreen s params inter save h = h
csi_command-IsOnScreen s params inter restore h = restore_cursor-IsOnScreen s
csi_command-IsOnScreen s params inter ignored h = h

esc_dispatch-IsOnScreen :
    (s : TtyCompatState) (byte : ℕ) → IsOnScreen s → IsOnScreen (esc_dispatch s byte)
unfolding esc_dispatch save_cursor restore_cursor respond set_row clamp_row clamp_col rows_max
    cols_max
esc_dispatch-IsOnScreen s byte (a, b, c, d) = ground arith

pub perform-IsOnScreen :
    (s : TtyCompatState) (event : Event) → IsOnScreen s → IsOnScreen (perform s event)
unfolding perform csi_dispatch
perform-IsOnScreen s print h = print-IsOnScreen s h
perform-IsOnScreen s (executes byte) h = execute-IsOnScreen s byte h
perform-IsOnScreen s (csi params inter action) h =
    csi_command-IsOnScreen s params inter (csi_of action) h
perform-IsOnScreen s (esc byte) h = esc_dispatch-IsOnScreen s byte h
perform-IsOnScreen s other h = h

perform_all-IsOnScreen :
    (s : TtyCompatState) (events : List Event) → IsOnScreen s → IsOnScreen (perform_all s events)
unfolding perform_all
perform_all-IsOnScreen s [] h = h
perform_all-IsOnScreen s (event ∷ events) h =
    perform_all-IsOnScreen (perform s event) events (perform-IsOnScreen s event h)

module _ {Parser : Type 0} (advance : Parser → ℕ → Parser × List Event) where
  -- Whatever a program writes, and however the parser reads it, a cursor on the screen stays on it.
  pub process_output-IsOnScreen :
      (parser : Parser) (s : TtyCompatState) (output : List ℕ)
      → IsOnScreen s
      → IsOnScreen (process_output advance (parser, s) output).1
  unfolding process_output
  process_output-IsOnScreen parser s [] h = h
  process_output-IsOnScreen parser s (byte ∷ output) h =
      process_output-IsOnScreen (advance parser byte).0 _ output
        (perform_all-IsOnScreen s (advance parser byte).1 h)
