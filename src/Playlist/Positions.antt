-- ===== src/Playlist/Positions.antt =====
-- Playlists: the rows represent a list of media, and an insertion inserts.
use medialibrary.Common.{
  ℕ, suc, ◌+◌, ◌-◌, ◌≤◌, ◌==◌, ltb, ◌≡◌, refl, ap, ◌∙◌, if◌then◌else◌, Bool, some, List, [], ◌∷◌,
  map, length, get_elem?, count, count-append, All, All-append, arith, length-append,
}
use medialibrary.Playlist.Ranges.{insert_at, length-insert_at, get-insert_at}
use medialibrary.Playlist.{Row, shift_up, insert_row}

abbrev pub is_at : ℕ → Row → Bool
is_at p r = r.position == p

abbrev pub IsItem : List ℕ → Row → Type 0
IsItem xs r = get_elem? xs r.position ≡ some r.media_id

-- Each position of the list has one row, with the item that stands there.
pub record Represents (rows : List Row) (xs : List ℕ) : Type 0 where
  pub dense : (p : ℕ) → count (is_at p) rows ≡ (if ltb p (length xs) then 1 else 0)
  pub items : All (IsItem xs) rows
  pub same_length : length rows ≡ length xs

count-shift_up :
    (p q : ℕ) (rows : List Row)
    → count (is_at q) (map (shift_up p) rows)
      ≡ (if ltb q p then count (is_at q) rows else if q == p then 0 else count (is_at (q - 1)) rows)
count-shift_up p q [] = ground arith
count-shift_up p q (r ∷ rows) = ground (arith, count-shift_up p q rows)

All-shift_up :
    (p m : ℕ) (xs : List ℕ) (rows : List Row)
    → p ≤ length xs
    → All (IsItem xs) rows
    → All (IsItem (insert_at p m xs)) (map (shift_up p) rows)
All-shift_up p m xs [] h a = tt
All-shift_up p m xs (r ∷ rows) h a = ground (
  arith,
  get-insert_at p m r.position xs h,
  get-insert_at p m (r.position + 1) xs h,
  All-shift_up p m xs rows h a.1,
)

pub length-map : (f : Row → Row) (rows : List Row) → length (map f rows) ≡ length rows
length-map f [] = refl
length-map f (r ∷ rows) = ap suc (length-map f rows)

pub insert_row-Represents :
    (p m : ℕ) (rows : List Row) (xs : List ℕ)
    → p ≤ length xs
    → Represents rows xs
    → Represents (insert_row m p rows) (insert_at p m xs)
unfolding insert_row
insert_row-Represents p m rows xs h v = record {
  dense = λ q. ground (
    arith,
    length-insert_at p m xs,
    count-shift_up p q rows,
    count-append (is_at q) (map (shift_up p) rows) (record { media_id = m; position = p } ∷ []),
    v.dense q,
    v.dense (q - 1),
  );
  items =
      All-append (IsItem (insert_at p m xs)) (map (shift_up p) rows)
        (record { media_id = m; position = p } ∷ []) (ground (arith, get-insert_at p m p xs h), tt)
        (All-shift_up p m xs rows h v.items);
  same_length =
      length-append (map (shift_up p) rows) (record { media_id = m; position = p } ∷ [])
      ∙ omega (arith, length-map (shift_up p) rows, v.same_length, length-insert_at p m xs);
}
