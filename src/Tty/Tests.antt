-- ===== src/Tty/Tests.antt =====
-- The output and the registry of terminals at concrete inputs.
use ape.Base.{ℕ, ◌+◌, ◌≡◌, refl, List, [], ◌∷◌, ◌++◌, ltb, if◌then◌else◌, arith, max}
use ape.Tty.State.{WindowSize, default}
use ape.Tty.Registry.{TtyRegistry}
use ape.Tty.Ansi.{
  Event, print, executes, csi, esc, perform_all, process_output, rows_max, cols_max, csi_dispatch,
  next_tab,
}
use ape.Tty.Ansi.Screen.{IsOnScreen, process_output-IsOnScreen}
use ape.Tty.Ansi.Cursor.{restores-saves}
use ape.Tty.Ansi.Printing.{offset, prints, offset-perform_all}
use ape.Tty.Ansi.Reports.{Answers, csi_dispatch-Answers}

abbrev terminals : TtyRegistry
terminals = (4, default) ∷ []

abbrev size : WindowSize
size = record { rows = 50; cols = 132; xpixel = 0; ypixel = 0 }

-- A parser without escape sequences; its state counts the bytes.
abbrev plain : ℕ → ℕ → ℕ × List Event
plain n byte = (n + 1, (if ltb byte 32 then executes byte else print) ∷ [])

default-IsOnScreen : IsOnScreen default
unfolding default
default-IsOnScreen = (omega arith, omega arith, omega arith, omega arith)

-- A tab from one of the last columns of a screen of 65535 goes back to the first.
tab_overflow : next_tab 65530 ≡ 1
unfolding next_tab
tab_overflow = refl

process_output-IsOnScreen_example :
    IsOnScreen (process_output plain (0, default) (97 ∷ 9 ∷ 8 ∷ 10 ∷ 98 ∷ [])).1
process_output-IsOnScreen_example =
    process_output-IsOnScreen plain 0 default (97 ∷ 9 ∷ 8 ∷ 10 ∷ 98 ∷ []) default-IsOnScreen

abbrev wandering : List Event
wandering = print ∷ executes 10 ∷ csi ((7 ∷ []) ∷ []) [] 66 ∷ esc 77 ∷ []

restores-saves_example :
    let back = perform_all default ((esc 55 ∷ wandering) ++ (esc 56 ∷ [])) in
    (back.cursor_row ≡ default.cursor_row) × (back.cursor_col ≡ default.cursor_col)
restores-saves_example =
    restores-saves default wandering default-IsOnScreen (tt, (tt, (refl, ((refl, refl), tt))))

offset-perform_all_example : offset (perform_all default (prints 200)) ≡ offset default + 200
unfolding default rows_max cols_max
offset-perform_all_example =
    offset-perform_all default 200 default-IsOnScreen (omega arith) (omega arith) (omega arith)

csi_dispatch-Answers_example :
    Answers default
      (csi_dispatch default ((18 ∷ []) ∷ []) [] 116)
      (max default.winsize.rows 1, max default.winsize.cols 1)
    × Answers default
        (csi_dispatch default ((14 ∷ []) ∷ []) [] 116)
        (max default.winsize.ypixel 1, max default.winsize.xpixel 1)
unfolding default
csi_dispatch-Answers_example =
    csi_dispatch-Answers default [] (omega arith) (omega arith) (omega arith) (omega arith)
