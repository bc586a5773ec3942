-- ===== src/Tty/Ldisc/Laws.antt =====
-- The loops of ape/tty/ldisc.rs in closed form, and what every call keeps.
use ape.Base.{
  ℕ, zero, suc, ◌-◌, ◌≡◌, refl, sym, ap, ◌∙◌, ◌≢◌, ◌⊎◌, inl, inr, false, ◌&&◌, List, [], ◌∷◌, ◌++◌,
  arith, append_assoc, append-nil, length, take, drop, drop_last, All, All-append, All-drop_last,
  ◌==◌, if◌then◌else◌, Bool-cases, Option-cases,
}
use mathlib.Core.Path.{subst}
use ape.Tty.State.{TtyCompatState}
use ape.Tty.Ldisc.{
  Modes, modes, translate, feed_canonical, feed_byte, feed_loop, feed_input, canonical_erase,
  canonical_kill, kill_loop, flush_canonical_to_readable, pop_bytes, rubout,
}

pub flush_lem :
    (line readable : List ℕ) → flush_canonical_to_readable line readable ≡ readable ++ line
unfolding flush_canonical_to_readable
flush_lem [] readable = sym (append-nil readable)
flush_lem (b ∷ line) readable =
    flush_lem line (readable ++ b ∷ []) ∙ append_assoc readable (b ∷ []) line

pub pop_bytes_lem : (n : ℕ) (bs : List ℕ) → pop_bytes n bs ≡ (take n bs, drop n bs)
unfolding pop_bytes
pop_bytes_lem zero [] = refl
pop_bytes_lem (suc n) [] = refl
pop_bytes_lem zero (b ∷ bs) = refl
pop_bytes_lem (suc n) (b ∷ bs) = ground (arith, pop_bytes_lem n bs)

-- One rubout for each byte.
abbrev pub rubouts : ℕ → List ℕ
rubouts zero = []
rubouts (suc n) = rubout ++ rubouts n

length-drop_last : (line : List ℕ) → length (drop_last line) ≡ length line - 1
length-drop_last [] = omega arith
length-drop_last (x ∷ []) = omega arith
length-drop_last (x ∷ y ∷ ys) = omega (arith, length-drop_last (y ∷ ys))

kill_loop_lem :
    (n : ℕ) (line echo : List ℕ) → length line ≡ n → kill_loop n line echo ≡ ([], echo ++ rubouts n)
unfolding kill_loop
kill_loop_lem zero [] echo h = ground (arith, append-nil echo)
kill_loop_lem zero (x ∷ line) echo h = absurd (omega arith)
kill_loop_lem (suc n) [] echo h = absurd (omega arith)
kill_loop_lem (suc n) (x ∷ line) echo h =
    kill_loop_lem n (drop_last (x ∷ line)) (echo ++ rubout)
      (omega (arith, length-drop_last (x ∷ line)))
    ∙ ap (λ (t : List ℕ). ([], t)) (append_assoc echo rubout (rubouts n))

pub canonical_kill_lem :
    (line echo : List ℕ) → canonical_kill line echo ≡ ([], echo ++ rubouts (length line))
unfolding canonical_kill
canonical_kill_lem line echo = kill_loop_lem (length line) line echo refl

-- The echo only grows: what was collected before comes first.
abbrev with_echo : List ℕ → TtyCompatState × List ℕ → TtyCompatState × List ℕ
with_echo echo (s, out) = (s, echo ++ out)

feed_canonical-echo :
    (m : Modes) (s : TtyCompatState) (echo : List ℕ) (b : ℕ)
    → feed_canonical m s echo b ≡ with_echo echo (feed_canonical m s [] b)
unfolding feed_canonical canonical_erase
feed_canonical-echo m s echo b = ground (
  arith,
  canonical_kill_lem s.canonical_line_buf echo,
  canonical_kill_lem s.canonical_line_buf [],
  append-nil echo,
)

feed_byte-echo :
    (m : Modes) (s : TtyCompatState) (echo : List ℕ) (raw : ℕ)
    → feed_byte m s echo raw ≡ with_echo echo (feed_byte m s [] raw)
unfolding feed_byte
feed_byte-echo m s echo raw = elim (Option-cases (translate m raw)) [
  | inl e ↦ ground (arith, append-nil echo)
  | inr (b, e) ↦
      ground (
        arith,
        append-nil echo,
        feed_canonical-echo m (record s { last_was_cr = raw == 13 }) echo b,
      )
]

pub feed_loop-echo :
    (m : Modes) (input : List ℕ) (s : TtyCompatState) (echo : List ℕ)
    → feed_loop m s echo input ≡ with_echo echo (feed_loop m s [] input)
unfolding feed_loop
feed_loop-echo m [] s echo = ground (arith, append-nil echo)
feed_loop-echo m (raw ∷ input) s echo =
    let (s', out) = feed_byte m s [] raw in
    let (s'', out') = feed_loop m s' [] input in
    cc (
      feed_byte-echo m s echo raw,
      feed_loop-echo m input s' (echo ++ out),
      feed_loop-echo m input s' out,
      append_assoc echo out out',
    )

termios-feed_byte :
    (m : Modes) (s : TtyCompatState) (echo : List ℕ) (raw : ℕ)
    → (feed_byte m s echo raw).0.termios ≡ s.termios
unfolding feed_byte translate feed_canonical
termios-feed_byte m s echo raw = ground arith

pub termios-feed_loop :
    (m : Modes) (input : List ℕ) (s : TtyCompatState) (echo : List ℕ)
    → (feed_loop m s echo input).0.termios ≡ s.termios
unfolding feed_loop
termios-feed_loop m [] s echo = refl
termios-feed_loop m (raw ∷ input) s echo =
    let (s', echo') = feed_byte m s echo raw in
    termios-feed_loop m input s' echo' ∙ termios-feed_byte m s echo raw

pub feed_loop-append :
    (m : Modes) (xs ys : List ℕ) (s : TtyCompatState) (echo : List ℕ)
    → feed_loop m s echo (xs ++ ys)
      ≡ feed_loop m (feed_loop m s echo xs).0 (feed_loop m s echo xs).1 ys
unfolding feed_loop
feed_loop-append m [] ys s echo = refl
feed_loop-append m (raw ∷ xs) ys s echo =
    let (s', echo') = feed_byte m s echo raw in feed_loop-append m xs ys s' echo'

-- Input may arrive in pieces: to feed two pieces one after the other has the effect of feeding
-- both at once, on the state and on the echo.
pub feed_input-append :
    (s : TtyCompatState) (xs ys : List ℕ)
    → let (s', echo) = feed_input s xs in
      let (s'', echo') = feed_input s' ys in feed_input s (xs ++ ys) ≡ (s'', echo ++ echo')
unfolding feed_input
feed_input-append s xs ys =
    let (s', echo) = feed_loop (modes s.termios) s [] xs in
    cc (
      feed_loop-append (modes s.termios) xs ys s [],
      feed_loop-echo (modes s.termios) ys s' echo,
      ap modes (termios-feed_loop (modes s.termios) xs s []),
    )

-- The line under edit holds no newline.
abbrev pub NoNewline : List ℕ → Type 0
NoNewline = All λ b. b ≢ 10

-- What one processed byte can make of the line.
feed_canonical-line :
    (m : Modes) (s : TtyCompatState) (echo : List ℕ) (b : ℕ)
    → let line = (feed_canonical m s echo b).0.canonical_line_buf in
      (line ≡ drop_last s.canonical_line_buf)
      ⊎ (line ≡ [])
      ⊎ ((line ≡ s.canonical_line_buf ++ b ∷ []) × (b ≢ 10))
unfolding feed_canonical canonical_erase
feed_canonical-line m s echo b = ground (arith, canonical_kill_lem s.canonical_line_buf echo)

feed_canonical-NoNewline :
    (m : Modes) (s : TtyCompatState) (echo : List ℕ) (b : ℕ)
    → NoNewline s.canonical_line_buf
    → NoNewline (feed_canonical m s echo b).0.canonical_line_buf
feed_canonical-NoNewline m s echo b h = elim (feed_canonical-line m s echo b) [
  | inl e ↦ subst NoNewline (sym e) (All-drop_last (λ c. c ≢ 10) s.canonical_line_buf h)
  | inr (inl e) ↦ subst NoNewline (sym e) tt
  | inr (inr (e, ne)) ↦
      subst NoNewline (sym e) (All-append (λ c. c ≢ 10) s.canonical_line_buf (b ∷ []) h (ne, tt))
]

feed_byte-line :
    (m : Modes) (s : TtyCompatState) (echo : List ℕ) (raw : ℕ)
    → let line = (feed_byte m s echo raw).0.canonical_line_buf in
      (line ≡ s.canonical_line_buf)
      ⊎ ((b : ℕ) × (line
            ≡ (feed_canonical m
                (record s { last_was_cr = raw == 13 })
                echo
                b).0.canonical_line_buf))
unfolding feed_byte
feed_byte-line m s echo raw = elim (Option-cases (translate m raw)) [
  | inl e ↦ inl (ground arith)
  | inr (b, e) ↦ elim (Bool-cases (if raw == 10 && s.last_was_cr then false else m.icanon)) [
    | inl edits ↦ inr (b, ground arith)
    | inr passes ↦ inl (ground arith)
  ]
]

feed_byte-NoNewline :
    (m : Modes) (s : TtyCompatState) (echo : List ℕ) (raw : ℕ)
    → NoNewline s.canonical_line_buf
    → NoNewline (feed_byte m s echo raw).0.canonical_line_buf
feed_byte-NoNewline m s echo raw h = elim (feed_byte-line m s echo raw) [
  | inl e ↦ subst NoNewline (sym e) h
  | inr (b, e) ↦ subst NoNewline (sym e) (feed_canonical-NoNewline m _ echo b h)
]

feed_loop-NoNewline :
    (m : Modes) (input : List ℕ) (s : TtyCompatState) (echo : List ℕ)
    → NoNewline s.canonical_line_buf
    → NoNewline (feed_loop m s echo input).0.canonical_line_buf
unfolding feed_loop
feed_loop-NoNewline m [] s echo h = h
feed_loop-NoNewline m (raw ∷ input) s echo h =
    let (s', echo') = feed_byte m s echo raw in
    feed_loop-NoNewline m input s' echo' (feed_byte-NoNewline m s echo raw h)

-- No input, under any settings, puts a newline into the line under edit: a line that is complete
-- has been moved to the readable bytes.
pub feed_input-NoNewline :
    (s : TtyCompatState) (input : List ℕ)
    → NoNewline s.canonical_line_buf
    → NoNewline (feed_input s input).0.canonical_line_buf
unfolding feed_input
feed_input-NoNewline s input h = feed_loop-NoNewline (modes s.termios) input s [] h
