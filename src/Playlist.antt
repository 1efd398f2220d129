-- ===== src/Playlist.antt =====
-- src/Playlist.cpp: the items of one playlist, and the triggers that keep their positions. The rows
-- of the other playlists are apart from these in every request. Requests do not fail here.
pub mod Ranges
pub mod Positions
pub mod Deletion
pub mod Moves
pub mod Counters
pub mod Listing
pub mod Refinement
mod Tests
use medialibrary.Common.{
  ℕ, zero, suc, ◌+◌, ◌-◌, ◌%◌, ◌^◌, ◌==◌, ltb, leb, if◌then◌else◌, Bool, true, false, not, ◌&&◌,
  ◌||◌, Option, none, some, List, [], ◌∷◌, ◌++◌, map, length,
}

-- A row of `PlaylistMediaRelation`.
pub record Row : Type 0 where
  pub media_id : ℕ
  pub position : ℕ

abbrev pub uint32 : ℕ
uint32 = 2 ^ 32

abbrev pub uint32_max : ℕ
uint32_max = 4294967295

-- The trigger `UpdateOrderOnInsert`, on the rows other than the new one.
abbrev pub shift_up : ℕ → Row → Row
shift_up position r = if leb position r.position then record r { position = r.position + 1 } else r

unfoldable pub insert_row : ℕ → ℕ → List Row → List Row
insert_row media_id position rows =
    map (shift_up position) rows ++ record { media_id = media_id; position = position } ∷ []

-- The trigger `UpdateOrderOnDelete`.
abbrev pub shift_down : ℕ → Row → Row
shift_down position r =
    if ltb position r.position then record r { position = r.position - 1 } else r

-- The rows that a `DELETE` selects are marked first.
abbrev pub Marked : Type 0
Marked = Bool × Row

abbrev pub mark_range : ℕ → ℕ → Row → Marked
mark_range first last r = (leb first r.position && ltb r.position last, r)

-- The first marked row, and the others.
unfoldable pub next_marked : List Marked → Option (Row × List Marked)
next_marked [] = none
next_marked ((true, r) ∷ rows) = some (r, rows)
next_marked ((false, r) ∷ rows) = elim (next_marked rows) [
  | none ↦ none
  | some (victim, rest) ↦ some (victim, (false, r) ∷ rest)
]

abbrev pub shift_marked : ℕ → Marked → Marked
shift_marked position (marked, r) = (marked, shift_down position r)

-- Then they are deleted one after the other, with the trigger after each; the fuel is their number
-- at most.
unfoldable pub delete_marked : ℕ → List Marked → List Marked
delete_marked zero rows = rows
delete_marked (suc fuel) rows = elim (next_marked rows) [
  | none ↦ rows
  | some (victim, rest) ↦ delete_marked fuel (map (shift_marked victim.position) rest)
]

abbrev pub row_of : Marked → Row
row_of (marked, r) = r

unfoldable pub delete_range : ℕ → ℕ → List Row → List Row
unfolding delete_marked next_marked
delete_range first last rows =
    map row_of (delete_marked (length rows) (map (mark_range first last) rows))

-- The position of a new row: behind all, or the given one if it is not behind all.
abbrev pub insert_position : ℕ → List Row → ℕ
insert_position position rows =
    if position == uint32_max
    then length rows
    else if ltb position (length rows)
    then position
    else length rows

-- `addInternal`, without the counters.
unfoldable pub add_internal : List ℕ → ℕ → List Row → List Row
unfolding insert_row
add_internal [] position rows = rows
add_internal (media_id ∷ media_list) position rows =
    add_internal media_list (if position == uint32_max then position else (position + 1) % uint32)
      (insert_row media_id (insert_position position rows) rows)

-- `removeInternal`, without the counters.
unfoldable pub remove_internal : ℕ → ℕ → List Row → List Row
unfolding delete_range
remove_internal position count rows =
    if count == 0 then rows else delete_range position ((position + count) % uint32) rows

-- `mediaAt`: 0 where there is no such row.
unfoldable pub media_at : ℕ → List Row → ℕ
media_at position [] = 0
media_at position (r ∷ rows) =
    let rest = media_at position rows in if r.position == position then r.media_id else rest

-- The loop of `move` that collects the items; `none` where one is missing.
unfoldable pub media_from : ℕ → ℕ → List Row → Option (List ℕ)
unfolding media_at
media_from from zero rows = some []
media_from from (suc count) rows =
    let rest = media_from (from + 1) count rows in
    if media_at from rows == 0
    then none
    else elim rest [ none ↦ none | some ids ↦ some (media_at from rows ∷ ids) ]

-- `move`; where it fails, the transaction is rolled back. The bound of the loop and the sums of the
-- test are words.
unfoldable pub move : ℕ → ℕ → ℕ → List Row → List Row × Bool
unfolding media_from remove_internal add_internal
move from position count rows =
    if count == 0
    then (rows, true)
    else if leb from position && leb ((position + 1) % uint32) ((from + count) % uint32)
    then (rows, true)
    else elim (media_from from ((from + count) % uint32 - from) rows) [
      | none ↦ (rows, false)
      | some media_list ↦ (
        add_internal media_list
            (if ltb position from then position else (position + uint32 - (count - 1)) % uint32)
            (remove_internal from count rows),
        true,
      )
    ]
