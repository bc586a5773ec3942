-- ===== src/Tty/Registry.antt =====
-- ape/tty/state.rs: the registry of terminals, by the capability of the terminal's endpoint. That
-- number, `term.endpoint().cap().bits()`, stands for the `TerminalClient` of the source.
use ape.Base.{
  ℕ, ◌≡◌, Bool, false, not, Option, none, some, List, ℤ, Map, lookup, insert, remove, lookup-insert,
  unwrap_or, is_empty, ◌==◌, if◌then◌else◌, arith,
}
use ape.Tty.State.{TtyCompatState, WindowSize, default}

abbrev pub TtyRegistry : Type 0
TtyRegistry = Map TtyCompatState

unfoldable pub get : TtyRegistry → ℕ → Option TtyCompatState
get states term = lookup term states

unfoldable pub has_readable : TtyRegistry → ℕ → Bool
has_readable states term = elim (lookup term states) [
  | none ↦ false
  | some s ↦ not (is_empty s.readable_buf)
]

unfoldable pub put : TtyRegistry → ℕ → TtyCompatState → TtyRegistry
put states term s = insert term s states

-- `entry(..).or_default()`.
abbrev pub entry : TtyRegistry → ℕ → TtyCompatState
entry states term = unwrap_or (lookup term states) default

unfoldable pub update_termios : TtyRegistry → ℕ → List ℕ → TtyRegistry
update_termios states term termios =
    insert term (record (entry states term) { termios = termios }) states

unfoldable pub update_winsize : TtyRegistry → ℕ → WindowSize → TtyRegistry
update_winsize states term winsize =
    insert term (record (entry states term) { winsize = winsize }) states

unfoldable pub update_pgrp : TtyRegistry → ℕ → ℤ → TtyRegistry
update_pgrp states term pgrp = insert term (record (entry states term) { pgrp = pgrp }) states

unfoldable pub remove_term : TtyRegistry → ℕ → TtyRegistry
remove_term states term = remove term states

-- Setting the modes, the size and the foreground group of a terminal, in this order, leaves the
-- three values on that terminal, the rest of its state as it was (that of a new terminal if it had
-- none), and every other terminal untouched.
pub updates_lem :
    (states : TtyRegistry) (term k : ℕ) (t : List ℕ) (w : WindowSize) (g : ℤ)
    → get (update_pgrp (update_winsize (update_termios states term t) term w) term g) k ≡ (
        if term == k
        then some (record (entry states term) { termios = t; winsize = w; pgrp = g })
        else get states k)
unfolding get update_termios update_winsize update_pgrp
updates_lem states term k t w g =
    let a = update_termios states term t in
    let b = update_winsize a term w in
    ground (
      arith,
      lookup-insert term term (record (entry states term) { termios = t }) states,
      lookup-insert term k (record (entry states term) { termios = t }) states,
      lookup-insert term term (record (entry a term) { winsize = w }) a,
      lookup-insert term k (record (entry a term) { winsize = w }) a,
      lookup-insert term k (record (entry b term) { pgrp = g }) b,
    )
