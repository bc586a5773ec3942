-- ===== src/Tty/Ldisc/Reading.antt =====
-- Reads of ape/tty/ldisc.rs.
use ape.Base.{
  ℕ, ◌≤◌, ◌<◌, ◌≡◌, min, ◌↔◌, true, false, ◌++◌, arith, length, length-take, take-append-drop,
  if◌then◌else◌,
}
use ape.Tty.State.{TtyCompatState}
use ape.Tty.Ldisc.{is_icanon, read_cc, can_read_now, take_readable}
use ape.Tty.Ldisc.Laws.{pop_bytes_lem}

-- A read can be served exactly if something is readable, and outside canonical mode at least as
-- many bytes as VMIN asks for.
pub can_read_now_iff :
    (s : TtyCompatState)
    → (can_read_now s ≡ true) ↔ (
        (0 < length s.readable_buf)
        × (is_icanon s.termios ≡ false → read_cc s.termios 6 1 ≤ length s.readable_buf))
unfolding can_read_now
can_read_now_iff s = ground arith

-- A read takes the first bytes, as many as it asks for and are there, and changes nothing else; it
-- takes none where the read cannot be served yet.
pub take_readable_lem :
    (s : TtyCompatState) (n : ℕ)
    → let (out, s') = take_readable s n in
      (out ++ s'.readable_buf ≡ s.readable_buf)
      × (s' ≡ record s { readable_buf = s'.readable_buf })
      × (length out ≡ (if can_read_now s then min n (length s.readable_buf) else 0))
unfolding take_readable
take_readable_lem s n =
    let k = min n (length s.readable_buf) in
    ground (
      arith,
      pop_bytes_lem k s.readable_buf,
      take-append-drop k s.readable_buf,
      length-take k s.readable_buf,
    )
