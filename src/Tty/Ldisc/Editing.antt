-- ===== src/Tty/Ldisc/Editing.antt =====
-- Line editing and raw input of ape/tty/ldisc.rs against plain descriptions of them.
use ape.Base.{
  ℕ, ◌≡◌, refl, sym, ap, ◌∙◌, ◌≢◌, Bool, true, false, ◌&&◌, List, [], ◌∷◌, ◌++◌, map, arith,
  append_assoc, append-nil, drop_last, All, ◌==◌, if◌then◌else◌,
}
use ape.Tty.State.{TtyCompatState}
use ape.Tty.Ldisc.{
  Modes, modes, translate, feed_canonical, feed_byte, feed_loop, feed_input, canonical_erase,
}
use ape.Tty.Ldisc.Laws.{flush_lem, canonical_kill_lem, feed_loop-append}

-- What a user types on a line.
pub data Key : Type 0 where
  char : ℕ → Key
  erase kill : Key

abbrev pub key_byte : Modes → Key → ℕ
key_byte m (char b) = b
key_byte m erase = m.verase
key_byte m kill = m.vkill

abbrev pub edit_key : List ℕ → Key → List ℕ
edit_key line (char b) = line ++ b ∷ []
edit_key line erase = drop_last line
edit_key line kill = []

abbrev pub edit : List ℕ → List Key → List ℕ
edit line [] = line
edit line (k ∷ ks) = edit (edit_key line k) ks

-- Canonical input whose control characters are told apart from each other and from line ends.
pub record EditsLines (m : Modes) : Type 0 where
  pub canonical : m.icanon ≡ true
  pub keeps_newline : m.inlcr ≡ false
  pub erase_not_newline : m.verase ≢ 10
  pub erase_not_return : m.verase ≢ 13
  pub kill_not_newline : m.vkill ≢ 10
  pub kill_not_return : m.vkill ≢ 13
  pub kill_not_erase : m.vkill ≢ m.verase
  pub eof_not_newline : m.veof ≢ 10

-- A character with no special meaning.
abbrev pub IsPlain : Modes → Key → Type 0
IsPlain m (char b) = (b ≢ 10) × (b ≢ 13) × (b ≢ m.verase) × (b ≢ m.vkill) × (b ≢ m.veof)
IsPlain m erase = Unit
IsPlain m kill = Unit

feed_byte-key :
    (m : Modes) (s : TtyCompatState) (echo : List ℕ) (k : Key)
    → EditsLines m
    → IsPlain m k
    → (feed_byte m s echo (key_byte m k)).0
      ≡ record s { canonical_line_buf = edit_key s.canonical_line_buf k; last_was_cr = false }
unfolding feed_byte translate feed_canonical canonical_erase
feed_byte-key m s echo (char b) e p = ground arith
feed_byte-key m s echo erase e p = ground arith
feed_byte-key m s echo kill e p = ground (arith, canonical_kill_lem s.canonical_line_buf echo)

feed_loop-keys :
    (m : Modes) (ks : List Key) (s : TtyCompatState) (echo : List ℕ)
    → EditsLines m
    → s.last_was_cr ≡ false
    → All (IsPlain m) ks
    → (feed_loop m s echo (map (key_byte m) ks)).0
      ≡ record s { canonical_line_buf = edit s.canonical_line_buf ks }
unfolding feed_loop
feed_loop-keys m [] s echo e c p = refl
feed_loop-keys m (k ∷ ks) s echo e c p =
    let echo' = (feed_byte m s echo (key_byte m k)).1 in
    let next = record s { canonical_line_buf = edit_key s.canonical_line_buf k } in
    let first : (feed_byte m s echo (key_byte m k)).0 ≡ next =
      ground (arith, feed_byte-key m s echo k e p.0) in
    ap (λ (t : TtyCompatState). (feed_loop m t echo' (map (key_byte m) ks)).0) first
    ∙ feed_loop-keys m ks next echo' e c p.1

feed_byte-newline :
    (m : Modes) (s : TtyCompatState) (echo : List ℕ)
    → EditsLines m
    → s.last_was_cr ≡ false
    → (feed_byte m s echo 10).0 ≡ record s {
      canonical_line_buf = [];
      readable_buf = s.readable_buf ++ (s.canonical_line_buf ++ 10 ∷ []);
    }
unfolding feed_byte translate feed_canonical
feed_byte-newline m s echo e c =
    ground (arith, flush_lem (s.canonical_line_buf ++ 10 ∷ []) s.readable_buf)

-- In canonical mode a typed line is delivered as it was edited: after any erasures, kills and characters
-- without a special meaning, a newline moves to the readable bytes exactly the line that these edits make
-- of the line begun before, with the newline, and leaves an empty line and all else as it was. A newline is
-- not mapped to a return, the control characters are apart from it, from the return and from each other as
-- `EditsLines` says, and the last byte before was no carriage return.
pub feed_input_line :
    (s : TtyCompatState) (ks : List Key)
    → EditsLines (modes s.termios)
    → s.last_was_cr ≡ false
    → All (IsPlain (modes s.termios)) ks
    → (feed_input s (map (key_byte (modes s.termios)) ks ++ 10 ∷ [])).0 ≡ record s {
      canonical_line_buf = [];
      readable_buf = s.readable_buf ++ (edit s.canonical_line_buf ks ++ 10 ∷ []);
    }
unfolding feed_input feed_loop
feed_input_line s ks e c p =
    let m = modes s.termios in
    let (s', echo) = feed_loop m s [] (map (key_byte m) ks) in
    let typed = record s { canonical_line_buf = edit s.canonical_line_buf ks } in
    cc (
      feed_loop-append m (map (key_byte m) ks) (10 ∷ []) s [],
      feed_loop-keys m ks s [] e c p,
      feed_byte-newline m typed echo e c,
    )

-- Input without line editing.
-- A line feed right after a carriage return is dropped.
abbrev pub squeeze : Bool → List ℕ → List ℕ
squeeze after_cr [] = []
squeeze after_cr (b ∷ bs) =
    let rest = squeeze (b == 13) bs in if b == 10 && after_cr then rest else b ∷ rest

-- Neither canonical nor translating.
pub record IsRaw (m : Modes) : Type 0 where
  pub not_canonical : m.icanon ≡ false
  pub keeps_returns : m.igncr ≡ false
  pub keeps_returns' : m.icrnl ≡ false
  pub keeps_newlines : m.inlcr ≡ false

feed_byte-raw :
    (m : Modes) (s : TtyCompatState) (echo : List ℕ) (b : ℕ)
    → IsRaw m
    → ((feed_byte m s echo b).0.last_was_cr ≡ (b == 13))
      × ((feed_byte m s echo b).0.readable_buf
          ≡ (if b == 10 && s.last_was_cr then s.readable_buf else s.readable_buf ++ b ∷ []))
unfolding feed_byte translate
feed_byte-raw m s echo b raw = ground arith

feed_loop-raw :
    (m : Modes) (input : List ℕ) (s : TtyCompatState) (echo : List ℕ)
    → IsRaw m
    → (feed_loop m s echo input).0.readable_buf ≡ s.readable_buf ++ squeeze s.last_was_cr input
unfolding feed_loop
feed_loop-raw m [] s echo raw = sym (append-nil s.readable_buf)
feed_loop-raw m (b ∷ input) s echo raw =
    let (s', echo') = feed_byte m s echo b in
    let (same_cr, same) = feed_byte-raw m s echo b raw in
    ground (
      arith,
      same_cr,
      same,
      feed_loop-raw m input s' echo' raw,
      append_assoc s.readable_buf (b ∷ []) (squeeze (b == 13) input),
    )

-- Without line editing and without any translation of line ends the input still loses bytes: what
-- becomes readable is the input less each line feed that comes right after a carriage return.
pub feed_input_raw :
    (s : TtyCompatState) (input : List ℕ)
    → IsRaw (modes s.termios)
    → (feed_input s input).0.readable_buf ≡ s.readable_buf ++ squeeze s.last_was_cr input
unfolding feed_input
feed_input_raw s input raw = feed_loop-raw (modes s.termios) input s [] raw

-- With echo off nothing is echoed.
feed_byte_silent :
    (m : Modes) (s : TtyCompatState) (echo : List ℕ) (b : ℕ)
    → m.do_echo ≡ false
    → (feed_byte m s echo b).1 ≡ echo
unfolding feed_byte feed_canonical translate
feed_byte_silent m s echo b e = ground arith

feed_loop_silent :
    (m : Modes) (input : List ℕ) (s : TtyCompatState) (echo : List ℕ)
    → m.do_echo ≡ false
    → (feed_loop m s echo input).1 ≡ echo
unfolding feed_loop
feed_loop_silent m [] s echo e = refl
feed_loop_silent m (b ∷ input) s echo e =
    let (s', echo') = feed_byte m s echo b in
    feed_loop_silent m input s' echo' e ∙ feed_byte_silent m s echo b e

-- With echo off no input is echoed, whatever the other settings are.
pub feed_input_silent :
    (s : TtyCompatState) (input : List ℕ)
    → (modes s.termios).do_echo ≡ false
    → (feed_input s input).1 ≡ []
unfolding feed_input
feed_input_silent s input e = feed_loop_silent (modes s.termios) input s [] e
