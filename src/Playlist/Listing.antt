-- ===== src/Playlist/Listing.antt =====
-- Playlists: the media that a playlist lists. Its query gives only those that are present, also where
-- `removeInternal` takes from it the media whose counters it subtracts.
use medialibrary.Common.{
  ℕ, zero, suc, ◌+◌, ◌≤◌, ◌≡◌, refl, sym, ap, ◌∙◌, Bool, true, false, keep, Option, none, some,
  List, [], ◌∷◌, length, take, drop, All, arith, Option-cases, inl, inr,
}
use medialibrary.Playlist.{Row, uint32_max, media_at}
use medialibrary.Playlist.Positions.{Represents}
use medialibrary.Playlist.Ranges.{drop-all, remove_range, remove_range_none, All-drop}
use medialibrary.Playlist.Moves.{media_at-get, get-drop, remove_internal-Represents}
use medialibrary.Playlist.Counters.{Media, Playlist, Counters, minus, remove}
use medialibrary.Playlist.Counters.Agreement.{found, tally, tally_of, IsCounted, remove-suc}

-- The media in the order of their positions.
unfoldable pub contents : ℕ → ℕ → List Row → List ℕ
contents position zero rows = []
contents position (suc n) rows = media_at position rows ∷ contents (suc position) n rows

-- What the query of the playlist gives: its media that are present.
unfoldable pub items : (ℕ → Option Media) → List Row → List Media
unfolding contents found
items media rows = keep (λ m. m.is_present) (found media (contents 0 (length rows) rows))

abbrev is_present_in : (ℕ → Option Media) → ℕ → Bool
is_present_in media id = elim (media id) [ none ↦ false | some m ↦ m.is_present ]

abbrev pub IsPresent : (ℕ → Option Media) → ℕ → Type 0
IsPresent media id = is_present_in media id ≡ true

abbrev pub IsMissing : (ℕ → Option Media) → ℕ → Type 0
IsMissing media id = is_present_in media id ≡ false

contents-Represents :
    (rows : List Row) (xs : List ℕ) (p n : ℕ)
    → Represents rows xs
    → p + n ≡ length xs
    → contents p n rows ≡ drop p xs
unfolding contents
contents-Represents rows xs p zero v e = sym (drop-all p xs (omega arith))
contents-Represents rows xs p (suc n) v e =
    let at = media_at-get p rows xs (ground (arith, v.dense p)) v.items in
    ap (λ ys. media_at p rows ∷ ys) (contents-Represents rows xs (suc p) n v (omega arith))
    ∙ sym (get-drop p xs (media_at p rows) at)

keep-found :
    (media : ℕ → Option Media) (xs : List ℕ)
    → All (IsPresent media) xs
    → keep (λ m. m.is_present) (found media xs) ≡ found media xs
unfolding found
keep-found media [] a = refl
keep-found media (x ∷ xs) a = elim (Option-cases (media x)) [
  | inl e ↦ ground (arith, e, keep-found media xs a.1)
  | inr (m, e) ↦ ground (arith, e, keep-found media xs a.1)
]

keep-missing :
    (media : ℕ → Option Media) (xs : List ℕ)
    → All (IsMissing media) xs
    → keep (λ m. m.is_present) (found media xs) ≡ []
unfolding found
keep-missing media [] a = refl
keep-missing media (x ∷ xs) a = elim (Option-cases (media x)) [
  | inl e ↦ ground (arith, e, keep-missing media xs a.1)
  | inr (m, e) ↦ ground (arith, e, keep-missing media xs a.1)
]

found-take :
    (media : ℕ → Option Media) (n : ℕ) (xs : List ℕ)
    → All (IsPresent media) xs
    → take n (found media xs) ≡ found media (take n xs)
unfolding found
found-take media zero xs a = refl
found-take media (suc n) [] a = refl
found-take media (suc n) (x ∷ xs) a = elim (Option-cases (media x)) [
  | inl e ↦ ground (arith, e)
  | inr (m, e) ↦ ground (arith, e, found-take media n xs a.1)
]

found-drop :
    (media : ℕ → Option Media) (n : ℕ) (xs : List ℕ)
    → All (IsPresent media) xs
    → drop n (found media xs) ≡ found media (drop n xs)
unfolding found
found-drop media zero xs a = refl
found-drop media (suc n) [] a = refl
found-drop media (suc n) (x ∷ xs) a = elim (Option-cases (media x)) [
  | inl e ↦ ground (arith, e)
  | inr (m, e) ↦ ground (arith, e, found-drop media n xs a.1)
]

listed :
    (media : ℕ → Option Media) (rows : List Row) (xs : List ℕ)
    → Represents rows xs
    → items media rows ≡ keep (λ m. m.is_present) (found media xs)
unfolding items
listed media rows xs v =
    ap (λ ys. keep (λ m. m.is_present) (found media ys))
      (contents-Represents rows xs 0 (length rows) v (omega (arith, v.same_length)))

-- If all are present, the query gives the media at the positions that it is asked for.
pub items-present :
    (media : ℕ → Option Media) (position n : ℕ) (rows : List Row) (xs : List ℕ)
    → All (IsPresent media) xs
    → Represents rows xs
    → take n (drop position (items media rows)) ≡ found media (take n (drop position xs))
items-present media position n rows xs a v =
    rw (listed media rows xs v, keep-found media xs a, found-drop media position xs a)
      (found-take media n (drop position xs) (All-drop (IsPresent media) position xs a))

minus-none : (c : Counters) → minus c (tally []) ≡ c
unfolding tally
minus-none c = ground arith

-- If no media of a playlist is present, the removal of a range takes it out of the list, and yet the
-- counters still count all the media that were there before.
pub remove-missing :
    (media : ℕ → Option Media) (position n : ℕ) (p : Playlist) (xs : List ℕ)
    → position + n ≤ length xs
    → length xs ≤ uint32_max
    → All (IsMissing media) xs
    → IsCounted media p xs
    → let after = remove (take n (drop position (items media p.rows))) position n p in
      Represents after.rows (remove_range position n xs) × (after.counters ≡ tally_of media xs)
unfolding remove
remove-missing media position zero p xs h l a v =
    (rw (remove_range_none position xs) v.represents, v.counted)
remove-missing media position (suc n) p xs h l a v =
    let none_listed : take (suc n) (drop position (items media p.rows)) ≡ [] =
      rw
        (
          listed media p.rows xs v.represents,
          keep-missing media xs a,
          drop-all {A = Media} position [] (omega arith),
        )
        refl in
    rw (none_listed, remove-suc [] position n p)
      (
        remove_internal-Represents position (suc n) p.rows xs h l v.represents,
        minus-none p.counters ∙ v.counted,
      )
