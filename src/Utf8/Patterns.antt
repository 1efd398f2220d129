-- ===== src/Utf8/Patterns.antt =====
-- utils::utf8::commonPattern of src/utils/Strings.cpp: the common start of two titles, whose ASCII
-- letters are compared without their case. The parts of the texts from the offsets on are compared.
mod Chars
pub mod Agreement
use mathlib.Core.Option
use medialibrary.Common.{
  ℕ, zero, suc, ◌+◌, ◌==◌, ltb, leb, if◌then◌else◌, Bool, true, false, not, ◌&&◌, Option, none,
  some, List, [], ◌∷◌, ◌++◌, Bytes, length, take, drop,
}
use medialibrary.Utf8.{high_bit, shift}

-- `tolower` in the C locale.
abbrev pub lower : ℕ → ℕ
lower c = if leb b'A' c && leb c b'Z' then c + 32 else c

-- The inner loop: how many bytes continue the character on both sides, and `none` where they differ,
-- are no continuation, or are missing.
unfoldable pub common_bytes : ℕ → ℕ → Bytes → Bytes → Option ℕ
common_bytes zero c lhs rhs = some 0
common_bytes (suc bits) c (x ∷ lhs) (y ∷ rhs) =
    let rest = Option.map suc (common_bytes bits (shift c) lhs rhs) in
    if high_bit c then (if high_bit x && x == y then rest else none) else some 0
common_bytes (suc bits) c _ _ = if high_bit c then none else some 0

-- How many bytes the first character has on both sides, if it is the same.
unfoldable pub common_char : ℕ → Bytes → ℕ → Bytes → Option ℕ
common_char x lhs y rhs =
    if not (high_bit x) && not (high_bit y)
    then (if lower x == lower y then some 1 else none)
    else if x == y
    then Option.map suc (common_bytes 8 (shift x) lhs rhs)
    else none

-- The outer loop, on fuel for the characters: the common start, and the number of its characters.
unfoldable pub common_start : ℕ → Bytes → Bytes → Bytes × ℕ
common_start zero lhs rhs = ([], 0)
common_start (suc fuel) (x ∷ lhs) (y ∷ rhs) = elim (common_char x lhs y rhs) [
  | none ↦ ([], 0)
  | some n ↦
      let (start, size) = common_start fuel (drop n (x ∷ lhs)) (drop n (y ∷ rhs)) in
      (take n (x ∷ lhs) ++ start, suc size)
]
common_start (suc fuel) _ _ = ([], 0)

-- `none` is the exception of `substr` for an offset behind the end.
unfoldable pub common_pattern : Bytes → ℕ → Bytes → ℕ → ℕ → Option Bytes
common_pattern lhs lhs_offset rhs rhs_offset min_size =
    let (start, size) = common_start (length lhs) (drop lhs_offset lhs) (drop rhs_offset rhs) in
    if ltb size min_size then some [] else if ltb (length lhs) lhs_offset then none else some start
