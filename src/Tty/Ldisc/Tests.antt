-- ===== src/Tty/Ldisc/Tests.antt =====
-- Runs of ape/tty/ldisc.rs, and the theorems at concrete inputs.
use ape.Base.{◌≡◌, refl, true, List, [], ◌∷◌, map, arith, length, ap}
use ape.Tty.State.{TtyCompatState, default, default_termios}
use ape.Tty.Ldisc.{modes, feed_input, feed_loop, feed_byte, feed_canonical, translate}
use ape.Tty.Ldisc.Editing.{Key, char, erase, EditsLines, IsRaw, feed_input_line}

default_settings :
    (length default.termios ≡ 44)
    × ((modes default.termios).icanon ≡ true)
    × ((modes default.termios).verase ≡ 0x7f)
unfolding default default_termios modes
default_settings = (refl, refl, refl)

-- "ab", erase, "c", newline.
default_line :
    feed_input default (97 ∷ 98 ∷ 0x7f ∷ 99 ∷ 10 ∷ [])
    ≡ (record default { readable_buf = 97 ∷ 99 ∷ 10 ∷ [] }, 97 ∷ 98 ∷ 8 ∷ 32 ∷ 8 ∷ 99 ∷ 10 ∷ [])
unfolding default default_termios feed_input feed_loop feed_byte feed_canonical translate modes
default_line = refl

default-EditsLines : EditsLines (modes default.termios)
unfolding default default_termios modes
default-EditsLines = record {
  canonical = refl;
  keeps_newline = refl;
  erase_not_newline = omega arith;
  erase_not_return = omega arith;
  kill_not_newline = omega arith;
  kill_not_return = omega arith;
  kill_not_erase = omega arith;
  eof_not_newline = omega arith;
}

abbrev typed : List Key
typed = char 97 ∷ char 98 ∷ erase ∷ char 99 ∷ []

feed_input_line_example :
    (feed_input default (97 ∷ 98 ∷ 0x7f ∷ 99 ∷ 10 ∷ [])).0.readable_buf ≡ 97 ∷ 99 ∷ 10 ∷ []
unfolding default default_termios modes
feed_input_line_example =
    ap (λ (s : TtyCompatState). s.readable_buf)
      (feed_input_line default typed default-EditsLines refl (omega arith))

-- All flags off: raw input.
abbrev unedited : TtyCompatState
unedited = record default { termios = map (λ _. 0) default_termios }

unedited-IsRaw : IsRaw (modes unedited.termios)
unfolding default default_termios modes
unedited-IsRaw = record {
  not_canonical = refl;
  keeps_returns = refl;
  keeps_returns' = refl;
  keeps_newlines = refl;
}

abbrev holding : TtyCompatState
holding = record default { readable_buf = 1 ∷ 2 ∷ 3 ∷ [] }
