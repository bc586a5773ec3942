-- ===== src/Tty/Ldisc.antt =====
-- ape/tty/ldisc.rs: input processing and reads. The loops over a `VecDeque` are recursions, and
-- the echo that a call collects is a list that grows at its end.
pub mod Laws
pub mod Editing
pub mod Reading
mod Tests
use Prim.Native.Nat.{bit_and}
use ape.Base.{
  ℕ, zero, suc, ◌+◌, ◌*◌, min, Bool, true, false, not, ◌&&◌, ◌||◌, Option, none, some, List, [],
  ◌∷◌, ◌++◌, length, is_empty, get_or, get_elem?, take, drop, drop_last, ltb, leb, ◌==◌,
  if◌then◌else◌, unwrap_or,
}
use ape.Tty.State.{TtyCompatState, iflag_offset, lflag_offset, cc_offset}

-- `from_ne_bytes` on a little-endian machine.
unfoldable pub read_u32 : List ℕ → ℕ → ℕ
read_u32 termios off =
    get_or termios off 0
    + 256 * get_or termios (off + 1) 0
    + 65536 * get_or termios (off + 2) 0
    + 16777216 * get_or termios (off + 3) 0

unfoldable pub read_cc : List ℕ → ℕ → ℕ → ℕ
read_cc termios idx fallback = unwrap_or (get_elem? termios (cc_offset + idx)) fallback

abbrev pub has_flag : ℕ → ℕ → Bool
has_flag word flag = not (bit_and word flag == 0)

unfoldable pub is_igncr : List ℕ → Bool
unfolding read_u32
is_igncr termios = has_flag (read_u32 termios iflag_offset) 0x80

unfoldable pub is_icrnl : List ℕ → Bool
unfolding read_u32
is_icrnl termios = has_flag (read_u32 termios iflag_offset) 0x100

unfoldable pub is_inlcr : List ℕ → Bool
unfolding read_u32
is_inlcr termios = has_flag (read_u32 termios iflag_offset) 0x40

unfoldable pub is_icanon : List ℕ → Bool
unfolding read_u32
is_icanon termios = has_flag (read_u32 termios lflag_offset) 0x2

unfoldable pub is_echo : List ℕ → Bool
unfolding read_u32
is_echo termios = has_flag (read_u32 termios lflag_offset) 0x8

-- Back, blank, back.
abbrev pub rubout : List ℕ
rubout = 8 ∷ 32 ∷ 8 ∷ []

unfoldable pub canonical_erase : List ℕ → List ℕ → List ℕ × List ℕ
canonical_erase line echo = if is_empty line then (line, echo) else (drop_last line, echo ++ rubout)

-- The loop pops from the back until nothing is left: as many rounds as the line has bytes.
unfoldable pub kill_loop : ℕ → List ℕ → List ℕ → List ℕ × List ℕ
kill_loop zero line echo = (line, echo)
kill_loop (suc rounds) line echo =
    let rest = kill_loop rounds (drop_last line) (echo ++ rubout) in
    if is_empty line then (line, echo) else rest

unfoldable pub canonical_kill : List ℕ → List ℕ → List ℕ × List ℕ
unfolding kill_loop
canonical_kill line echo = kill_loop (length line) line echo

-- The readable bytes after the line has been moved behind them.
unfoldable pub flush_canonical_to_readable : List ℕ → List ℕ → List ℕ
flush_canonical_to_readable [] readable = readable
flush_canonical_to_readable (b ∷ line) readable =
    flush_canonical_to_readable line (readable ++ b ∷ [])

-- What `feed_input` reads from the settings before its loop.
pub record Modes : Type 0 where
  pub icanon : Bool
  pub do_echo : Bool
  pub verase : ℕ
  pub vkill : ℕ
  pub veof : ℕ
  pub igncr : Bool
  pub icrnl : Bool
  pub inlcr : Bool

unfoldable pub modes : List ℕ → Modes
unfolding is_icanon is_echo is_igncr is_icrnl is_inlcr read_cc
modes termios = record {
  icanon = is_icanon termios;
  do_echo = is_echo termios;
  verase = read_cc termios 2 0x7f;
  vkill = read_cc termios 3 0x15;
  veof = read_cc termios 4 0x04;
  igncr = is_igncr termios;
  icrnl = is_icrnl termios;
  inlcr = is_inlcr termios;
}

-- The byte that is processed, `none` where the loop goes on to the next one.
unfoldable pub translate : Modes → ℕ → Option ℕ
translate m raw =
    if raw == 13 && m.igncr
    then none
    else if raw == 13 && m.icrnl
    then some 10
    else if raw == 10 && m.inlcr
    then some 13
    else some raw

abbrev pub echo_byte : Modes → List ℕ → ℕ → List ℕ
echo_byte m echo b = if m.do_echo then echo ++ b ∷ [] else echo

unfoldable pub feed_canonical : Modes → TtyCompatState → List ℕ → ℕ → TtyCompatState × List ℕ
unfolding canonical_erase canonical_kill flush_canonical_to_readable
feed_canonical m s echo b =
    if b == m.verase
    then (if m.do_echo
        then (let (line, echo') = canonical_erase s.canonical_line_buf echo in
            (record s { canonical_line_buf = line }, echo'))
        else (record s { canonical_line_buf = drop_last s.canonical_line_buf }, echo))
    else if b == m.vkill
    then (if m.do_echo
        then (let (line, echo') = canonical_kill s.canonical_line_buf echo in
            (record s { canonical_line_buf = line }, echo'))
        else (record s { canonical_line_buf = [] }, echo))
    else if b == m.veof
    then (
      record s {
        canonical_line_buf = [];
        readable_buf = flush_canonical_to_readable s.canonical_line_buf s.readable_buf;
      },
      echo,
    )
    else if b == 10
    then (
      record s {
        canonical_line_buf = [];
        readable_buf = flush_canonical_to_readable (s.canonical_line_buf ++ b ∷ []) s.readable_buf;
      },
      echo_byte m echo b,
    )
    else (record s { canonical_line_buf = s.canonical_line_buf ++ b ∷ [] }, echo_byte m echo b)

unfoldable pub feed_byte : Modes → TtyCompatState → List ℕ → ℕ → TtyCompatState × List ℕ
feed_byte m s echo raw =
    if raw == 10 && s.last_was_cr
    then (record s { last_was_cr = false }, echo)
    else let s' = record s { last_was_cr = raw == 13 } in
      elim (translate m raw) [
        | none ↦ (s', echo)
        | some b ↦
            if m.icanon
            then feed_canonical m s' echo b
            else (record s' { readable_buf = s'.readable_buf ++ b ∷ [] }, echo_byte m echo b)
      ]

unfoldable pub feed_loop : Modes → TtyCompatState → List ℕ → List ℕ → TtyCompatState × List ℕ
feed_loop m s echo [] = (s, echo)
feed_loop m s echo (raw ∷ input) =
    let (s', echo') = feed_byte m s echo raw in feed_loop m s' echo' input

unfoldable pub feed_input : TtyCompatState → List ℕ → TtyCompatState × List ℕ
feed_input s input = feed_loop (modes s.termios) s [] input

-- The last test of the source, `!readable_buf.is_empty()`, holds where it stands.
unfoldable pub can_read_now : TtyCompatState → Bool
can_read_now s =
    if is_empty s.readable_buf
    then false
    else if is_icanon s.termios
    then true
    else let vmin = read_cc s.termios 6 1 in
      if vmin == 0 then not (is_empty s.readable_buf) else leb vmin (length s.readable_buf)

-- The loop of `take_readable` over its first `n` bytes.
unfoldable pub pop_bytes : ℕ → List ℕ → List ℕ × List ℕ
pop_bytes n [] = ([], [])
pop_bytes zero (b ∷ bs) = ([], b ∷ bs)
pop_bytes (suc n) (b ∷ bs) = let (out, rest) = pop_bytes n bs in (b ∷ out, rest)

unfoldable pub take_readable : TtyCompatState → ℕ → List ℕ × TtyCompatState
take_readable s max_len =
    if max_len == 0 || not (can_read_now s)
    then ([], s)
    else let n = min max_len (length s.readable_buf) in
      let (out, rest) = pop_bytes n s.readable_buf in (out, record s { readable_buf = rest })
