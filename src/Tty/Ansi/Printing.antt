-- ===== src/Tty/Ansi/Printing.antt =====
-- ape/tty/ansi.rs: characters fill the screen in reading order.
use native.Mathlib.Nat.{suc-mul}
use ape.Base.{
  ℕ, zero, suc, ◌+◌, ◌-◌, ◌*◌, ◌≤◌, ◌<◌, ◌≡◌, sym, ◌∙◌, ap, inl, inr, List, [], ◌∷◌, arith, ◌==◌,
  min, max, ltb, Bool-cases,
}
use mathlib.Core.Path.{subst}
use ape.Tty.State.{TtyCompatState}
use ape.Tty.Ansi.{
  rows_max, cols_max, clamp_row, set_row, handle_printable, Event, print, perform, perform_all,
  u16_max,
}
use ape.Tty.Ansi.Screen.{IsOnScreen, perform-IsOnScreen}

-- How many cells come before the cursor, row by row.
abbrev pub offset : TtyCompatState → ℕ
offset s = (s.cursor_row - 1) * cols_max s + (s.cursor_col - 1)

abbrev pub prints : ℕ → List Event
prints zero = []
prints (suc n) = print ∷ prints n

row_above : (r n : ℕ) → 1 ≤ r → r * n ≡ (r - 1) * n + n
row_above zero n h = absurd (omega arith)
row_above (suc r) n h =
    ap (λ k. k * n) (omega arith) ∙ suc-mul r n ∙ ap (λ k. k * n + n) (omega arith)

-- A full row that is followed by a cell is not the last.
not_last :
    (r rows cols : ℕ) → 1 ≤ r → r ≤ rows → (r - 1) * cols + (cols - 1) + 1 < rows * cols → r < rows
not_last r rows cols one high room = elim (Bool-cases (r == rows)) [
  | inl last ↦
      let same : r * cols ≡ rows * cols = ap (λ n. n * cols) (ground (arith, last)) in
      absurd (omega (arith, same, row_above r cols one))
  | inr more ↦ ground (arith, more)
]

-- One character: the next cell, unless the cursor is in the last one.
offset-handle_printable :
    (s : TtyCompatState)
    → IsOnScreen s
    → rows_max s < u16_max
    → cols_max s < u16_max
    → offset s + 1 < rows_max s * cols_max s
    → offset (handle_printable s) ≡ offset s + 1
unfolding handle_printable set_row clamp_row rows_max cols_max
offset-handle_printable s shown short narrow room =
    elim (Bool-cases (ltb (max s.winsize.cols 1) (min (s.cursor_col + 1) u16_max))) [
      | inr fits ↦
          let next : min (s.cursor_col + 1) u16_max - 1 ≡ s.cursor_col - 1 + 1 =
            ground (arith, shown, narrow) in
          rw (fits) (omega (arith, next))
      | inl wraps ↦
          let full : s.cursor_col ≡ max s.winsize.cols 1 = ground (arith, shown, wraps) in
          let below : s.cursor_row < max s.winsize.rows 1 =
            not_last s.cursor_row (max s.winsize.rows 1) (max s.winsize.cols 1) shown.0 shown.1
              (omega (arith, room, full)) in
          let row : min (max (min (s.cursor_row + 1) u16_max) 1) (max s.winsize.rows 1) - 1
              ≡ s.cursor_row =
            omega arith in
          rw (wraps, row)
            (omega (arith, row_above s.cursor_row (max s.winsize.cols 1) shown.0, full, shown))
    ]

winsize-print : (s : TtyCompatState) → (perform s print).winsize ≡ s.winsize
unfolding perform handle_printable set_row
winsize-print s = ground arith

-- Characters that fit behind a cursor on the screen move it as many cells on, over the ends of the rows,
-- when the screen has fewer than 65535 rows and fewer than 65535 columns.
pub offset-perform_all :
    (s : TtyCompatState) (n : ℕ)
    → IsOnScreen s
    → rows_max s < u16_max
    → cols_max s < u16_max
    → offset s + n < rows_max s * cols_max s
    → offset (perform_all s (prints n)) ≡ offset s + n
unfolding perform_all perform rows_max cols_max
offset-perform_all s zero shown short narrow room = omega arith
offset-perform_all s (suc n) shown short narrow room =
    let same : (handle_printable s).winsize ≡ s.winsize = winsize-print s in
    let first : offset (handle_printable s) ≡ offset s + 1 =
      offset-handle_printable s shown short narrow (omega arith) in
    let moved : offset (handle_printable s) + n < rows_max s * cols_max s =
      omega (arith, first, room) in
    let rest =
      offset-perform_all (handle_printable s) n (perform-IsOnScreen s print shown) (rw (same) short)
        (rw (same) narrow)
        (subst (λ w. offset (handle_printable s) + n < max w.rows 1 * max w.cols 1) (sym same)
          moved) in
    rest ∙ omega (arith, first)
