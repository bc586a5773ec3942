-- ===== src/Tty/Ansi.antt =====
-- ape/tty/ansi.rs: what a terminal's output does to its cursor, and the replies to queries. The
-- package anstyle_parse, which turns bytes into events, is a parameter: the type of its parser, and
-- its `advance` on one byte. Of a list of parameters only the first number of each is used.
pub mod Screen
pub mod Cursor
pub mod Printing
pub mod Reports
use ape.Base.{
  ℕ, zero, suc, ◌+◌, ◌-◌, ◌*◌, ◌/◌, ◌%◌, ◌^◌, Bool, Option, none, some, List, [], ◌∷◌, ◌++◌, min,
  max, ltb, ◌==◌, if◌then◌else◌, get_elem?,
}
use ape.Tty.State.{TtyCompatState, WindowSize}

abbrev pub u16_max : ℕ
u16_max = 0xffff

unfoldable pub rows_max : TtyCompatState → ℕ
rows_max state = max state.winsize.rows 1

unfoldable pub cols_max : TtyCompatState → ℕ
cols_max state = max state.winsize.cols 1

unfoldable pub clamp_row : TtyCompatState → ℕ → ℕ
clamp_row state row = min (max row 1) (rows_max state)

unfoldable pub clamp_col : TtyCompatState → ℕ → ℕ
clamp_col state col = min (max col 1) (cols_max state)

-- `u16::saturating_add`.
abbrev pub saturating_add16 : ℕ → ℕ → ℕ
saturating_add16 a b = min (a + b) u16_max

unfoldable pub param_raw : List (List ℕ) → ℕ → ℕ
param_raw params idx = elim (get_elem? params idx) [
  | none ↦ 0
  | some numbers ↦ elim (get_elem? numbers 0) [ none ↦ 0 | some n ↦ n ]
]

unfoldable pub param_or : List (List ℕ) → ℕ → ℕ → ℕ
param_or params idx default = if param_raw params idx == 0 then default else param_raw params idx

unfoldable pub respond : TtyCompatState → List ℕ → TtyCompatState
respond state bytes = record state { readable_buf = state.readable_buf ++ bytes }

-- The assignments to the cursor, clamped.
unfoldable pub set_row : TtyCompatState → ℕ → TtyCompatState
set_row state row = record state { cursor_row = clamp_row state row }

unfoldable pub set_col : TtyCompatState → ℕ → TtyCompatState
set_col state col = record state { cursor_col = clamp_col state col }

abbrev pub first_col : TtyCompatState → TtyCompatState
first_col state = record state { cursor_col = 1 }

-- The two moves that most sequences are made of.
abbrev pub down_by : TtyCompatState → ℕ → TtyCompatState
down_by state n = set_row state (saturating_add16 state.cursor_row n)

abbrev pub up_by : TtyCompatState → ℕ → TtyCompatState
up_by state n = set_row state (state.cursor_row - n)

unfoldable pub handle_printable : TtyCompatState → TtyCompatState
handle_printable state =
    let moved = record state { cursor_col = saturating_add16 state.cursor_col 1 } in
    if ltb (cols_max state) moved.cursor_col then down_by (first_col moved) 1 else moved

-- The next stop for a tab, in the wrapping arithmetic of 16 bits.
unfoldable pub next_tab : ℕ → ℕ
next_tab col = (((col + u16_max) % 2 ^ 16 / 8 + 1) * 8 + 1) % 2 ^ 16

unfoldable pub execute : TtyCompatState → ℕ → TtyCompatState
execute state byte =
    if byte == 10
    then first_col (down_by state 1)
    else if byte == 13
    then first_col state
    else if byte == 8
    then set_col state (state.cursor_col - 1)
    else if byte == 9
    then set_col state (next_tab state.cursor_col)
    else state

unfoldable pub save_cursor : TtyCompatState → TtyCompatState
save_cursor state = record state {
  saved_cursor_row = state.cursor_row;
  saved_cursor_col = state.cursor_col;
}

unfoldable pub restore_cursor : TtyCompatState → TtyCompatState
restore_cursor state = record state {
  cursor_row = clamp_row state state.saved_cursor_row;
  cursor_col = clamp_col state state.saved_cursor_col;
}

-- The digits of a number of 16 bits, as `format!` prints it.
unfoldable pub digits_from : ℕ → ℕ → List ℕ → List ℕ
digits_from zero n rest = rest
digits_from (suc fuel) n rest =
    let more = digits_from fuel (n / 10) ((48 + n % 10) ∷ rest) in
    if n / 10 == 0 then (48 + n % 10) ∷ rest else more

abbrev pub decimal : ℕ → List ℕ
decimal n = digits_from 5 n []

-- ESC [ code ; first ; second t
unfoldable pub report : ℕ → ℕ → ℕ → List ℕ
report code first second =
    (27 ∷ 91 ∷ code ∷ 59 ∷ []) ++ (decimal first ++ (59 ∷ decimal second ++ 116 ∷ []))

-- The answers to the three queries for what the terminal is: ESC [ ? 1 ; 2 c and ESC [ > 0 ; 0 ; 0 c.
abbrev pub attributes : List ℕ
attributes = 27 ∷ 91 ∷ 63 ∷ 49 ∷ 59 ∷ 50 ∷ 99 ∷ []

abbrev pub secondary_attributes : List ℕ
secondary_attributes = 27 ∷ 91 ∷ 62 ∷ 48 ∷ 59 ∷ 48 ∷ 59 ∷ 48 ∷ 99 ∷ []

unfoldable pub window_report : TtyCompatState → ℕ → TtyCompatState
window_report state query =
    if query == 14
    then respond state (report 52 (max state.winsize.ypixel 1) (max state.winsize.xpixel 1))
    else if query == 18
    then respond state (report 56 (rows_max state) (cols_max state))
    else state

-- The sequences that are told apart, by their last byte; `ignored` is for all others.
pub data Csi : Type 0 where
  device_attributes window position up down right left next_line previous_line : Csi
  column row save restore ignored : Csi

unfoldable pub csi_of : ℕ → Csi
csi_of action =
    if action == 99
    then device_attributes
    else if action == 116
    then window
    else if action == 72
    then position
    else if action == 102
    then position
    else if action == 65
    then up
    else if action == 66
    then down
    else if action == 67
    then right
    else if action == 68
    then left
    else if action == 69
    then next_line
    else if action == 70
    then previous_line
    else if action == 71
    then column
    else if action == 100
    then row
    else if action == 115
    then save
    else if action == 117
    then restore
    else ignored

unfoldable pub csi_command : TtyCompatState → List (List ℕ) → List ℕ → Csi → TtyCompatState
csi_command state params intermediates device_attributes = elim (get_elem? intermediates 0) [
  | none ↦ respond state attributes
  | some prefix ↦ respond state (if prefix == 62 then secondary_attributes else attributes)
]
csi_command state params intermediates window = window_report state (param_raw params 0)
csi_command state params intermediates position =
    set_col (set_row state (param_or params 0 1)) (param_or params 1 1)
csi_command state params intermediates up = up_by state (param_or params 0 1)
csi_command state params intermediates down = down_by state (param_or params 0 1)
csi_command state params intermediates right =
    set_col state (saturating_add16 state.cursor_col (param_or params 0 1))
csi_command state params intermediates left = set_col state (state.cursor_col - param_or params 0 1)
csi_command state params intermediates next_line = first_col (down_by state (param_or params 0 1))
csi_command state params intermediates previous_line = first_col (up_by state (param_or params 0 1))
csi_command state params intermediates column = set_col state (param_or params 0 1)
csi_command state params intermediates row = set_row state (param_or params 0 1)
csi_command state params intermediates save = save_cursor state
csi_command state params intermediates restore = restore_cursor state
csi_command state params intermediates ignored = state

unfoldable pub csi_dispatch : TtyCompatState → List (List ℕ) → List ℕ → ℕ → TtyCompatState
csi_dispatch state params intermediates action =
    csi_command state params intermediates (csi_of action)

unfoldable pub esc_dispatch : TtyCompatState → ℕ → TtyCompatState
esc_dispatch state byte =
    if byte == 55
    then save_cursor state
    else if byte == 56
    then restore_cursor state
    else if byte == 68
    then down_by state 1
    else if byte == 69
    then first_col (down_by state 1)
    else if byte == 77
    then up_by state 1
    else if byte == 90
    then respond state attributes
    else if byte == 99
    then record state { cursor_row = 1; cursor_col = 1; saved_cursor_row = 1; saved_cursor_col = 1 }
    else state

-- The calls that the parser makes; `other` is for those with an empty body.
pub data Event : Type 0 where
  print : Event
  executes : ℕ → Event
  csi : (params : List (List ℕ)) (intermediates : List ℕ) (action : ℕ) → Event
  esc : ℕ → Event
  other : Event

unfoldable pub perform : TtyCompatState → Event → TtyCompatState
perform state print = handle_printable state
perform state (executes byte) = execute state byte
perform state (csi params intermediates action) = csi_dispatch state params intermediates action
perform state (esc byte) = esc_dispatch state byte
perform state other = state

unfoldable pub perform_all : TtyCompatState → List Event → TtyCompatState
perform_all state [] = state
perform_all state (event ∷ events) = perform_all (perform state event) events

module _ {Parser : Type 0} (advance : Parser → ℕ → Parser × List Event) where
  unfoldable pub process_output : Parser × TtyCompatState → List ℕ → Parser × TtyCompatState
  process_output (parser, state) [] = (parser, state)
  process_output (parser, state) (byte ∷ bytes) =
      let (next, events) = advance parser byte in
      process_output (next, perform_all state events) bytes
