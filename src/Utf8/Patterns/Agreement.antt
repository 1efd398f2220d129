-- ===== src/Utf8/Patterns/Agreement.antt =====
-- commonPattern: the common start is made of whole characters that agree, and is the longest such.
use medialibrary.Common.{
  ℕ, zero, suc, ◌≤◌, ◌≡◌, ltb, if◌then◌else◌, some, [], ◌∷◌, ◌++◌, Bytes, length, take, drop, arith,
  Option-cases, inl, inr, length-drop,
}
use medialibrary.Utf8.Patterns.{common_char, common_start, common_pattern}
use medialibrary.Utf8.Patterns.Chars.{
  IsSameChar, same_char-positive, common_char-some, common_char-none,
}

-- The start that two texts have in common, up to the case of ASCII letters, with the number of its
-- characters: the texts go on with the same character as long as they can.
pub data IsCommonStart : Bytes → Bytes → Bytes → ℕ → Type 0 where
  ends : {lhs rhs : Bytes} → ((n : ℕ) → ¬ IsSameChar n lhs rhs) → IsCommonStart lhs rhs [] 0
  goes_on :
      {lhs rhs start : Bytes} {size : ℕ} (n : ℕ)
      → IsSameChar n lhs rhs
      → IsCommonStart (drop n lhs) (drop n rhs) start size
      → IsCommonStart lhs rhs (take n lhs ++ start) (suc size)

ends_left : (rhs : Bytes) → IsCommonStart [] rhs [] 0
ends_left rhs = ends (λ n h. h)

ends_right : (x : ℕ) (lhs : Bytes) → IsCommonStart (x ∷ lhs) [] [] 0
ends_right x lhs = ends (λ n h. h)

common_start_lem :
    (fuel : ℕ) (lhs rhs : Bytes)
    → length lhs ≤ fuel
    → IsCommonStart lhs rhs (common_start fuel lhs rhs).0 (common_start fuel lhs rhs).1
unfolding common_start
common_start_lem zero [] rhs h = ends_left rhs
common_start_lem zero (x ∷ lhs) rhs h = absurd (omega arith)
common_start_lem (suc fuel) [] rhs h = ends_left rhs
common_start_lem (suc fuel) (x ∷ lhs) [] h = ends_right x lhs
common_start_lem (suc fuel) (x ∷ lhs) (y ∷ rhs) h = elim (Option-cases (common_char x lhs y rhs)) [
  | inl e ↦ rw (e, common_start) (ends (λ n. common_char-none x y lhs rhs n e))
  | inr (n, e) ↦
      let same = common_char-some x y lhs rhs n e in
      let positive = same_char-positive n (x ∷ lhs) (y ∷ rhs) same in
      let shorter = length-drop n (x ∷ lhs) in
      rw (e, common_start)
        (goes_on n same (
          common_start_lem fuel (drop n (x ∷ lhs)) (drop n (y ∷ rhs))
            (omega (arith, shorter, positive))))
]

-- For a left offset in the text the loop ends with the longest start of the left part that is made of
-- whole characters and agrees with the right part, up to the case of ASCII letters, and with the number
-- of its characters; `commonPattern` returns that start, or the empty text where the characters are too
-- few. A character is a byte of ASCII, or a byte whose leading bits that are set count its bytes, with
-- one at least, of which all have the first bit set.
pub common_pattern_lem :
    (lhs rhs : Bytes) (lhs_offset rhs_offset min_size : ℕ)
    → lhs_offset ≤ length lhs
    → let found = common_start (length lhs) (drop lhs_offset lhs) (drop rhs_offset rhs) in
      IsCommonStart (drop lhs_offset lhs) (drop rhs_offset rhs) found.0 found.1
      × (common_pattern lhs lhs_offset rhs rhs_offset min_size
          ≡ some (if ltb found.1 min_size then [] else found.0))
unfolding common_pattern
common_pattern_lem lhs rhs lhs_offset rhs_offset min_size h =
    let shorter = length-drop lhs_offset lhs in
    (
      common_start_lem (length lhs) (drop lhs_offset lhs) (drop rhs_offset rhs)
          (omega (arith, shorter)),
      ground arith,
    )
