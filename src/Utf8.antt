-- ===== src/Utf8.antt =====
-- src/utils/Strings.cpp: trim, and the functions on UTF-8. A text is its list of bytes, all below
-- 256; the bytes are read from a position on, so that a text is the part that is not read yet.
pub mod Counting
pub mod Patterns
pub mod Trimming
mod Tests
use medialibrary.Common.{
  ℕ, zero, suc, ◌+◌, ◌-◌, ◌*◌, ◌/◌, ◌%◌, ◌^◌, ◌==◌, ltb, leb, if◌then◌else◌, Bool, true, false, not,
  ◌&&◌, ◌||◌, Option, none, some, List, [], ◌∷◌, ◌++◌, Bytes, length, take, drop,
}
use mathlib.Core.List.{reverse}

-- `isspace` in the C locale.
unfoldable pub is_space : ℕ → Bool
is_space c = c == 32 || (leb 9 c && leb c 13)

-- The erasure up to the first character that is no space.
unfoldable pub trim_start : Bytes → Bytes
unfolding is_space
trim_start [] = []
trim_start (c ∷ cs) = let rest = trim_start cs in if is_space c then rest else c ∷ cs

-- The second erasure is the first one, from the end.
unfoldable pub trim : Bytes → Bytes
unfolding trim_start
trim value = reverse (trim_start (reverse (trim_start value)))

-- `( c & 0x80 ) != 0`, and `c <<= 1` on a `uint8_t`.
abbrev pub high_bit : ℕ → Bool
high_bit c = leb 128 (c % 256)

abbrev pub shift : ℕ → ℕ
shift c = (c * 2) % 256

-- The loop over the bytes that continue a character: one for each leading bit that is left in `c`.
-- `none` where one is missing or is no continuation. The text is what follows; the fuel bounds the
-- bits of a byte.
unfoldable pub skip_continuation : ℕ → ℕ → Bytes → Option Bytes
skip_continuation zero c text = some text
skip_continuation (suc bits) c [] = if high_bit c then none else some []
skip_continuation (suc bits) c (b ∷ text) =
    let rest = skip_continuation bits (shift c) text in
    if high_bit c then (if high_bit b then rest else none) else some (b ∷ text)

-- What follows the first character of a text.
unfoldable pub after_char : ℕ → Bytes → Option Bytes
after_char c text = if high_bit c then skip_continuation 8 (shift c) text else some text

-- `nbChars`, on fuel for the characters; an invalid text has none.
unfoldable pub count_chars : ℕ → ℕ → Bytes → ℕ
count_chars zero n text = n
count_chars (suc fuel) n [] = n
count_chars (suc fuel) n (c ∷ text) = elim (after_char c text) [
  | none ↦ 0
  | some rest ↦ count_chars fuel (suc n) rest
]

unfoldable pub nb_chars : Bytes → ℕ
nb_chars value = count_chars (length value) 0 value

-- The loop of `nbBytes` over the characters that are left to count. The bytes of a character are
-- those between its place and that of the next one.
unfoldable pub count_bytes : ℕ → ℕ → Bytes → ℕ
count_bytes zero res text = res
count_bytes (suc nb_chars) res [] = res
count_bytes (suc nb_chars) res (c ∷ text) = elim (after_char c text) [
  | none ↦ 0
  | some rest ↦ count_bytes nb_chars (res + suc (length text - length rest)) rest
]

unfoldable pub nb_bytes : Bytes → ℕ → ℕ → ℕ
nb_bytes input offset n =
    if leb (length input) offset then 0 else count_bytes n 0 (drop offset input)
