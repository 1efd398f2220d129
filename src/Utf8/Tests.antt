-- ===== src/Utf8/Tests.antt =====
-- Texts in UTF-8 and spaces.
use medialibrary.Common.{◌≡◌, refl, List, [], ◌∷◌, Bytes, codes, arith}
use medialibrary.Utf8.{
  is_space, trim_start, trim, skip_continuation, after_char, count_chars, nb_chars,
}
use medialibrary.Utf8.Counting.{Utf8Char, one, two, three}
use medialibrary.Common.{ℕ, if◌then◌else◌, ltb, some}
use medialibrary.Utf8.Patterns.{common_bytes, common_char, common_start, common_pattern}
use medialibrary.Utf8.Patterns.Agreement.{IsCommonStart, common_pattern_lem}

trim_test : trim (codes "  a b ") ≡ codes "a b"
unfolding trim trim_start is_space
trim_test = refl

-- The third byte of the euro sign is missing.
nb_chars_test : nb_chars (0xE2 ∷ 0x82 ∷ []) ≡ 0
unfolding nb_chars count_chars after_char skip_continuation
nb_chars_test = refl

-- An e with an accent, an n, and the euro sign.
abbrev word : List Utf8Char
word = two 0xC3 0xA9 ∷ one b'n' ∷ three 0xE2 0x82 0xAC ∷ []

common_pattern_test :
    common_pattern (codes "A Show 1") 2 (codes "show 2") 0 3 ≡ some (codes "Show ")
unfolding common_pattern common_start common_char common_bytes
common_pattern_test = refl

abbrev shows : Bytes × ℕ
shows = common_start 8 (codes "Show 1") (codes "show 2")

common_pattern_lem_example :
    IsCommonStart (codes "Show 1") (codes "show 2") shows.0 shows.1
    × (common_pattern (codes "A Show 1") 2 (codes "show 2") 0 3
        ≡ some (if ltb shows.1 3 then [] else shows.0))
common_pattern_lem_example =
    common_pattern_lem (codes "A Show 1") (codes "show 2") 2 0 3 (omega arith)
