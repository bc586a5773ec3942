-- ===== src/Tty/Ansi/Reports.antt =====
-- ape/tty/ansi.rs: the replies to queries, read back.
use native.Mathlib.Nat.{pow-suc}
use ape.Base.{
  ℕ, zero, suc, ◌+◌, ◌-◌, ◌*◌, ◌/◌, ◌%◌, ◌^◌, ◌≤◌, ◌<◌, ◌≡◌, refl, ◌∙◌, ap, true, ◌&&◌, inl, inr,
  List, [], ◌∷◌, ◌++◌, arith, max, leb, ◌==◌, if◌then◌else◌, Bool-cases, drop,
}
use ape.Tty.State.{TtyCompatState}
use ape.Tty.Ansi.{
  digits_from, decimal, report, rows_max, cols_max, window_report, respond, u16_max, csi_dispatch,
  csi_command, csi_of, param_raw,
}

-- A program's reading of a reply: a number up to the first byte that is no digit, and what follows.
unfoldable pub read_number : ℕ → List ℕ → ℕ × List ℕ
read_number acc [] = (acc, [])
read_number acc (b ∷ bs) =
    let more = read_number (acc * 10 + (b - 48)) bs in
    if leb 48 b && leb b 57 then more else (acc, b ∷ bs)

-- ESC [ code ; first ; second t, as the numbers.
unfoldable pub read_report : List ℕ → ℕ × ℕ
read_report bytes =
    let (first, rest) = read_number 0 (drop 4 bytes) in (first, (read_number 0 (drop 1 rest)).0)

read_digit :
    (acc d : ℕ) (rest : List ℕ)
    → d < 10
    → read_number acc ((48 + d) ∷ rest) ≡ read_number (acc * 10 + d) rest
unfolding read_number
read_digit acc d rest small =
    let digit : (leb 48 (48 + d) && leb (48 + d) 57) ≡ true = ground arith in
    let value : acc * 10 + (48 + d - 48) ≡ acc * 10 + d = omega arith in rw (digit, value) refl

more_digits : (fuel n : ℕ) → n < 10 ^ fuel → 0 < n → 0 < fuel
more_digits zero n small positive = absurd (omega arith)
more_digits (suc fuel) n small positive = omega arith

-- The digits of n, then the rest, read as n.
read_number-digits_from :
    (fuel n : ℕ) (rest : List ℕ)
    → n < 10 ^ fuel
    → 0 < fuel
    → read_number 0 (digits_from fuel n rest) ≡ read_number n rest
unfolding digits_from
read_number-digits_from zero n rest small positive_fuel = absurd (omega arith)
read_number-digits_from (suc fuel) n rest small positive_fuel = elim (Bool-cases (n / 10 == 0)) [
  | inl last ↦ rw (last) (
      read_digit 0 (n % 10) rest (omega arith)
      ∙ ap (λ m. read_number m rest) (ground (arith, last)))
  | inr more ↦
      let tens : n / 10 < 10 ^ fuel = omega (arith, pow-suc 10 fuel) in
      rw (more) (
        read_number-digits_from fuel (n / 10) ((48 + n % 10) ∷ rest) tens
          (more_digits fuel (n / 10) tens (ground (arith, more)))
        ∙ read_digit (n / 10) (n % 10) rest (omega arith)
        ∙ ap (λ m. read_number m rest) (omega arith))
]

digits_from-append :
    (fuel n : ℕ) (xs ys : List ℕ) → digits_from fuel n xs ++ ys ≡ digits_from fuel n (xs ++ ys)
unfolding digits_from
digits_from-append zero n xs ys = refl
digits_from-append (suc fuel) n xs ys = elim (Bool-cases (n / 10 == 0)) [
  | inl last ↦ rw (last) refl
  | inr more ↦ rw (more) (digits_from-append fuel (n / 10) ((48 + n % 10) ∷ xs) ys)
]

-- A printed number of 16 bits at the head of a text that goes on with no digit.
read_number-decimal :
    (n : ℕ) (rest : List ℕ)
    → n ≤ u16_max
    → read_number n rest ≡ (n, rest)
    → read_number 0 (decimal n ++ rest) ≡ (n, rest)
read_number-decimal n rest small ends =
    ap (read_number 0) (digits_from-append 5 n [] rest)
    ∙ read_number-digits_from 5 n rest (omega arith) (omega arith)
    ∙ ends

-- Every reply reads back as the numbers that it was made of.
pub read_report-report :
    (code first second : ℕ)
    → first ≤ u16_max
    → second ≤ u16_max
    → read_report (report code first second) ≡ (first, second)
unfolding read_report report read_number
read_report-report code first second low high =
    let one = read_number-decimal first (59 ∷ decimal second ++ 116 ∷ []) low refl in
    let two = read_number-decimal second (116 ∷ []) high refl in rw (one, two) refl

-- Bytes that a query adds to the input, and the numbers that they read as.
abbrev pub Answers : TtyCompatState → TtyCompatState → ℕ × ℕ → Type 0
Answers before after numbers =
    (reply : List ℕ) × (after.readable_buf ≡ before.readable_buf ++ reply)
    × (read_report reply ≡ numbers)

-- A program that asks for the size of the screen or of the window, and reads the reply, gets the
-- numbers of the window size, each at least 1.
pub csi_dispatch-Answers :
    (s : TtyCompatState) (inter : List ℕ)
    → s.winsize.rows ≤ u16_max
    → s.winsize.cols ≤ u16_max
    → s.winsize.xpixel ≤ u16_max
    → s.winsize.ypixel ≤ u16_max
    → Answers s
        (csi_dispatch s ((18 ∷ []) ∷ []) inter 116)
        (max s.winsize.rows 1, max s.winsize.cols 1)
      × Answers s
          (csi_dispatch s ((14 ∷ []) ∷ []) inter 116)
          (max s.winsize.ypixel 1, max s.winsize.xpixel 1)
unfolding csi_dispatch csi_command csi_of window_report respond param_raw rows_max cols_max
csi_dispatch-Answers s inter r c x y = (
  (
    _,
    refl,
    read_report-report 56 (max s.winsize.rows 1) (max s.winsize.cols 1) (omega arith) (omega arith),
  ),
  (
    _,
    refl,
    read_report-report 52 (max s.winsize.ypixel 1) (max s.winsize.xpixel 1) (omega arith)
        (omega arith),
  ),
)
