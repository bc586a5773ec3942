-- ===== src/Tty/Ansi/Cursor.antt =====
-- ape/tty/ansi.rs: saving and restoring the cursor.
use ape.Base.{ℕ, ◌≡◌, refl, ◌∙◌, ap, Bool, true, false, List, [], ◌∷◌, arith, ◌==◌, ◌++◌, All}
use ape.Tty.State.{TtyCompatState}
use ape.Tty.Ansi.{
  clamp_row, clamp_col, set_row, set_col, respond, handle_printable, execute, save_cursor, rows_max,
  cols_max, restore_cursor, window_report, Csi, csi_command, device_attributes, window, save,
  csi_dispatch, csi_of, esc_dispatch, Event, print, executes, csi, esc, other, perform, perform_all,
}
use ape.Tty.Ansi.Screen.{IsOnScreen}

-- An event that neither saves the cursor nor resets the terminal.
abbrev pub LeavesSaved : Event → Type 0
LeavesSaved print = Unit {0}
LeavesSaved (executes byte) = Unit {0}
LeavesSaved (csi params inter action) = (action == 115) ≡ false
LeavesSaved (esc byte) = ((byte == 55) ≡ false) × ((byte == 99) ≡ false)
LeavesSaved other = Unit {0}

-- The saved position and the size of the screen.
abbrev pub Kept : TtyCompatState → TtyCompatState → Type 0
Kept s t =
    (s.saved_cursor_row ≡ t.saved_cursor_row)
    × (s.saved_cursor_col ≡ t.saved_cursor_col)
    × (s.winsize ≡ t.winsize)

abbrev saves : Csi → Bool
saves save = true
saves command = false

saves-csi_of : (action : ℕ) → (action == 115) ≡ false → saves (csi_of action) ≡ false
unfolding csi_of
saves-csi_of action leaves = ground arith

window_report-Kept : (s : TtyCompatState) (query : ℕ) → Kept (window_report s query) s
unfolding window_report respond
window_report-Kept s query = ground arith

csi_command-Kept :
    (s : TtyCompatState) (params : List (List ℕ)) (inter : List ℕ) (command : Csi)
    → saves command ≡ false
    → Kept (csi_command s params inter command) s
unfolding csi_command respond set_row set_col restore_cursor
csi_command-Kept s params [] device_attributes leaves = (refl, refl, refl)
csi_command-Kept s params (x ∷ xs) device_attributes leaves = (refl, refl, refl)
csi_command-Kept s params inter window leaves = window_report-Kept s _
csi_command-Kept s params inter save leaves = absurd (ground arith)
csi_command-Kept s params inter command leaves = (refl, refl, refl)

perform-Kept : (s : TtyCompatState) (event : Event) → LeavesSaved event → Kept (perform s event) s
unfolding perform csi_dispatch handle_printable execute esc_dispatch restore_cursor respond set_row
    set_col
perform-Kept s print leaves = ground arith
perform-Kept s (executes byte) leaves = ground arith
perform-Kept s (csi params inter action) leaves =
    csi_command-Kept s params inter (csi_of action) (saves-csi_of action leaves)
perform-Kept s (esc byte) leaves = ground arith
perform-Kept s other leaves = ground arith

perform_all-Kept :
    (s : TtyCompatState) (events : List Event)
    → All LeavesSaved events
    → Kept (perform_all s events) s
unfolding perform_all
perform_all-Kept s [] leaves = (refl, refl, refl)
perform_all-Kept s (event ∷ events) leaves =
    let (a, b, c) = perform-Kept s event leaves.0 in
    let (d, e, f) = perform_all-Kept (perform s event) events leaves.1 in (d ∙ a, e ∙ b, f ∙ c)

perform_all-append :
    (s : TtyCompatState) (xs ys : List Event)
    → perform_all s (xs ++ ys) ≡ perform_all (perform_all s xs) ys
unfolding perform_all
perform_all-append s [] ys = refl
perform_all-append s (x ∷ xs) ys = perform_all-append (perform s x) xs ys

-- The rest of a screen gives a saved position back.
restored_position :
    (s t : TtyCompatState)
    → IsOnScreen s
    → Kept t (save_cursor s)
    → ((restore_cursor t).cursor_row ≡ s.cursor_row)
      × ((restore_cursor t).cursor_col ≡ s.cursor_col)
unfolding save_cursor restore_cursor clamp_row clamp_col rows_max cols_max
restored_position s t shown (a, b, c) =
    let rows : t.winsize.rows ≡ s.winsize.rows = ap (λ w. w.rows) c in
    let cols : t.winsize.cols ≡ s.winsize.cols = ap (λ w. w.cols) c in (omega arith, omega arith)

-- ESC 7, then anything that neither saves nor resets, then ESC 8: the cursor is back where it was,
-- when it was on the screen.
pub restores-saves :
    (s : TtyCompatState) (events : List Event)
    → IsOnScreen s
    → All LeavesSaved events
    → let back = perform_all s ((esc 55 ∷ events) ++ (esc 56 ∷ [])) in
      (back.cursor_row ≡ s.cursor_row) × (back.cursor_col ≡ s.cursor_col)
unfolding perform esc_dispatch perform_all
restores-saves s events shown leaves =
    rw (perform_all-append (save_cursor s) events (esc 56 ∷ [])) (
      restored_position s (perform_all (save_cursor s) events) shown
        (perform_all-Kept (save_cursor s) events leaves))
