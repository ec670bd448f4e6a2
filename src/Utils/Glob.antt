-- ===== src/Utils/Glob.antt =====
-- `is_glob_match` of crates/flanforge-utils/src/lib.rs: the loop with one backtrack point, over the
-- same indices. `fuel` bounds its rounds.
use flanforge.Base.{
  ℕ, zero, suc, ◌+◌, ◌*◌, Bool, false, ◌||◌, ◌==◌, Option, none, some, Text, length, get_elem?,
  drop, all, if◌then◌else◌, unwrap_or,
}
pub mod Matches
pub mod Search
pub mod Examples

-- The loop's variables.
pub record Cursor : Type 0 where
  pub p : ℕ
  pub v : ℕ
  pub star : Option ℕ
  pub resume : ℕ

-- How a round ends: with the function's answer, or with the variables of the next round.
pub data Round : Type 0 where
  answer : Bool → Round
  again : Cursor → Round

abbrev pub is_star : ℕ → Bool
is_star byte = byte == b'*'

abbrev pub accepts : ℕ → ℕ → Bool
accepts byte c = (byte == b'?') || (byte == c)

-- The last arm: resume after the star, one byte later.
unfoldable pub backtrack : Cursor → Round
backtrack s = elim s.star [
  | some index ↦
      again (record { p = index + 1; v = s.resume + 1; star = some index; resume = s.resume + 1 })
  | none ↦ answer false
]

-- One byte of the value against one of the pattern.
unfoldable pub compare_byte : Cursor → ℕ → ℕ → Round
unfolding backtrack
compare_byte s byte c =
    if is_star byte
    then again (record { p = s.p + 1; v = s.v; star = some s.p; resume = s.v })
    else if accepts byte c
    then again (record s { p = s.p + 1; v = s.v + 1 })
    else backtrack s

unfoldable pub round : Text → Text → Cursor → Round
unfolding compare_byte
round pattern value s = elim (get_elem? value s.v) [
  | none ↦ answer (all is_star (drop s.p pattern))
  | some c ↦ elim (get_elem? pattern s.p) [ none ↦ backtrack s | some byte ↦ compare_byte s byte c ]
]

-- `none`: the rounds ran out.
unfoldable pub rounds : ℕ → Text → Text → Cursor → Option Bool
unfolding round
rounds zero pattern value s = none
rounds (suc fuel) pattern value s = elim (round pattern value s) [
  | answer b ↦ some b
  | again t ↦ rounds fuel pattern value t
]

abbrev pub start : Cursor
start = record { p = 0; v = 0; star = none; resume = 0 }

-- A resumption takes at most one round for each byte of the pattern, and one that the value ends.
abbrev pub enough : Text → Text → ℕ
enough pattern value = (length value + 1) * (length pattern + 1)

unfoldable pub is_glob_match : Text → Text → Bool
unfolding rounds
is_glob_match pattern value = unwrap_or (rounds (enough pattern value) pattern value start) false
