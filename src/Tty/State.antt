-- ===== src/Tty/State.antt =====
-- ape/tty/state.rs: the state of one terminal. The field `ansi_parser`, a value of the package
-- anstyle_parse that only the output path uses, is left out.
use ape.Base.{ℕ, ◌/◌, ◌%◌, Bool, false, List, [], ◌∷◌, ◌++◌, ℤ, pos}
use Prim.Native.Nat.{bit_or}

abbrev pub tty_termios_size : ℕ
tty_termios_size = 44

abbrev pub iflag_offset : ℕ
iflag_offset = 0

abbrev pub lflag_offset : ℕ
lflag_offset = 12

abbrev pub cc_offset : ℕ
cc_offset = 17

-- `u32::to_ne_bytes` on the little-endian machines that the program is built for.
abbrev pub u32_bytes : ℕ → List ℕ
u32_bytes v = v % 256 ∷ v / 256 % 256 ∷ v / 65536 % 256 ∷ v / 16777216 % 256 ∷ []

-- The four flag words of 4 bytes, the line byte at 16, and the control characters from 17 on.
unfoldable pub default_termios : List ℕ
default_termios =
    u32_bytes 0x100
    ++ (u32_bytes (bit_or 0x1 0x4)
        ++ ((0 ∷ 0 ∷ 0 ∷ 0 ∷ [])
            ++ (u32_bytes (bit_or (bit_or 0x1 0x2) 0x8)
                ++ (0 ∷ 0x03 ∷ 0x1c ∷ 0x7f ∷ 0x15 ∷ 0x04 ∷ 0 ∷ 1 ∷ 0 ∷ 0 ∷ 0 ∷ 0 ∷ 0 ∷ 0 ∷ 0 ∷ 0 ∷ 0
                    ∷ 0 ∷ 0 ∷ 0 ∷ 0 ∷ 0 ∷ 0 ∷ 0 ∷ 0 ∷ 0 ∷ 0 ∷ 0 ∷ []))))

pub record WindowSize : Type 0 where
  pub rows : ℕ
  pub cols : ℕ
  pub xpixel : ℕ
  pub ypixel : ℕ

pub record TtyCompatState : Type 0 where
  pub termios : List ℕ
  pub winsize : WindowSize
  pub pgrp : ℤ
  pub canonical_line_buf : List ℕ
  pub readable_buf : List ℕ
  pub cursor_row : ℕ
  pub cursor_col : ℕ
  pub saved_cursor_row : ℕ
  pub saved_cursor_col : ℕ
  pub last_was_cr : Bool

unfoldable pub default : TtyCompatState
default = record {
  termios = default_termios;
  winsize = record { rows = 25; cols = 80; xpixel = 800; ypixel = 600 };
  pgrp = pos 0;
  canonical_line_buf = [];
  readable_buf = [];
  cursor_row = 1;
  cursor_col = 1;
  saved_cursor_row = 1;
  saved_cursor_col = 1;
  last_was_cr = false;
}
