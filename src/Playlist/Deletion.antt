-- ===== src/Playlist/Deletion.antt =====
-- Playlists: the deletion of a range of positions, row by row, removes that range of the list.
use medialibrary.Common.{
  ℕ, zero, suc, ◌+◌, ◌-◌, ◌≤◌, ◌<◌, ltb, leb, ◌≡◌, refl, ap, subst, if◌then◌else◌, Bool, true,
  false, ◌&&◌, none, some, List, [], ◌∷◌, map, length, count, All, arith, ◌⊎◌, inl, inr,
}
use medialibrary.Playlist.{
  Row, Marked, mark_range, next_marked, shift_marked, delete_marked, row_of, delete_range,
}
use medialibrary.Playlist.Ranges.{
  remove_at, remove_range, length-remove_at, get-remove_at, remove_range_none, remove_range-step,
}
use medialibrary.Playlist.Positions.{is_at, IsItem, Represents}

abbrev rows_of : List Marked → List Row
rows_of = map row_of

-- The first marked row out of the rows.
data Takes (v : Row) : List Marked → List Marked → Type 0 where
  here : {rows : List Marked} → Takes v ((true, v) ∷ rows) rows
  there :
      {r : Row} {rows rest : List Marked}
      → Takes v rows rest
      → Takes v ((false, r) ∷ rows) ((false, r) ∷ rest)

abbrev AreUnmarked : List Marked → Type 0
AreUnmarked = All (λ (m : Marked). m.0 ≡ false)

next_marked-cases :
    (rows : List Marked)
    → ((next_marked rows ≡ none) × AreUnmarked rows)
      ⊎ ((v : Row) × (rest : List Marked) × (next_marked rows ≡ some (v, rest)) × Takes v rows rest)
unfolding next_marked
next_marked-cases [] = inl (refl, tt)
next_marked-cases ((true, r) ∷ rows) = inr (r, rows, refl, here)
next_marked-cases ((false, r) ∷ rows) = elim (next_marked-cases rows) [
  | inl (e, a) ↦ inl (rw (e, next_marked) refl, (refl, a))
  | inr (v, rest, e, t) ↦ inr (v, (false, r) ∷ rest, rw (e, next_marked) refl, there t)
]

-- The marks are those of the range of `k` positions from `first` on.
abbrev IsMarked : ℕ → ℕ → Marked → Type 0
IsMarked first k m = m.0 ≡ (leb first m.1.position && ltb m.1.position (first + k))

record Selects (rows : List Marked) (xs : List ℕ) (first k : ℕ) : Type 0 where
  represents : Represents (rows_of rows) xs
  marks : All (IsMarked first k) rows
  fits : first + k ≤ length xs

Takes-count :
    (f : Row → Bool) (v : Row) (rows rest : List Marked)
    → Takes v rows rest
    → count f (rows_of rows) ≡ (if f v then 1 else 0) + count f (rows_of rest)
Takes-count f v _ _ here = ground arith
Takes-count f v _ _ (there {r = r} {rows = rows} {rest = rest} t) =
    ground (arith, Takes-count f v rows rest t)

Takes-All :
    (P : Marked → Type 0) (v : Row) (rows rest : List Marked)
    → Takes v rows rest
    → All P rows
    → P (true, v) × All P rest
Takes-All P v _ _ here a = a
Takes-All P v _ _ (there {rows = rows} {rest = rest} t) a =
    let (one, more) = Takes-All P v rows rest t a.1 in (one, (a.0, more))

Takes-length :
    (v : Row) (rows rest : List Marked)
    → Takes v rows rest
    → length (rows_of rows) ≡ suc (length (rows_of rest))
Takes-length v _ _ here = refl
Takes-length v _ _ (there {rows = rows} {rest = rest} t) = ap suc (Takes-length v rows rest t)

All-rows_of :
    (P : Row → Type 0) (rows : List Marked)
    → All P (rows_of rows)
    → All (λ (m : Marked). P m.1) rows
All-rows_of P [] a = tt
All-rows_of P (r ∷ rows) a = (a.0, All-rows_of P rows a.1)

rows_of-All :
    (P : Row → Type 0) (rows : List Marked)
    → All (λ (m : Marked). P m.1) rows
    → All P (rows_of rows)
rows_of-All P [] a = tt
rows_of-All P (r ∷ rows) a = (a.0, rows_of-All P rows a.1)

count-shift_down :
    (p q : ℕ) (rows : List Marked)
    → count (is_at p) (rows_of rows) ≡ 0
    → count (is_at q) (rows_of (map (shift_marked p) rows))
      ≡ (if ltb q p then count (is_at q) (rows_of rows) else count (is_at (suc q)) (rows_of rows))
count-shift_down p q [] e = ground arith
count-shift_down p q ((m, r) ∷ rows) e = ground (arith, count-shift_down p q rows)

-- What is left of a selected row, when another one is deleted.
shift-lem :
    (p first k : ℕ) (xs : List ℕ) (rows : List Marked)
    → p < length xs
    → first ≤ p
    → p < first + suc k
    → count (is_at p) (rows_of rows) ≡ 0
    → All (λ (m : Marked). IsItem xs m.1) rows
    → All (IsMarked first (suc k)) rows
    → All (λ (m : Marked). IsItem (remove_at p xs) m.1) (map (shift_marked p) rows)
      × All (IsMarked first k) (map (shift_marked p) rows)
shift-lem p first k xs [] l f g e a b = (tt, tt)
shift-lem p first k xs ((m, r) ∷ rows) l f g e a b =
    let ih = shift-lem p first k xs rows l f g (ground (arith, e)) a.1 b.1 in
    ground (arith, ih, get-remove_at p r.position xs l, get-remove_at p (r.position - 1) xs l)

shift-length :
    (p : ℕ) (rows : List Marked)
    → length (rows_of (map (shift_marked p) rows)) ≡ length (rows_of rows)
shift-length p [] = refl
shift-length p ((m, r) ∷ rows) = ap suc (shift-length p rows)

-- One row is deleted.
delete-Selects :
    (v : Row) (rows rest : List Marked) (xs : List ℕ) (first k : ℕ)
    → Takes v rows rest
    → Selects rows xs first (suc k)
    → (first ≤ v.position)
      × (v.position < first + suc k)
      × Selects (map (shift_marked v.position) rest) (remove_at v.position xs) first k
delete-Selects v rows rest xs first k t s =
    let p = v.position in
    let (mark, marks) = Takes-All (IsMarked first (suc k)) v rows rest t s.marks in
    let (item, items) =
      Takes-All (λ (m : Marked). IsItem xs m.1) v rows rest t
        (All-rows_of (IsItem xs) rows s.represents.items) in
    let low : first ≤ p = ground (arith, mark) in
    let high : p < first + suc k = ground (arith, mark) in
    let fits = s.fits in
    let inside : p < length xs = omega arith in
    let shorter = length-remove_at p xs inside in
    let only : count (is_at p) (rows_of rest) ≡ 0 =
      ground (arith, Takes-count (is_at p) v rows rest t, s.represents.dense p) in
    let (items', marks') = shift-lem p first k xs rest inside low high only items marks in
    (
      low,
      high,
      record {
        represents = record {
          dense = λ q. ground (
            arith,
            shorter,
            only,
            count-shift_down p q rest only,
            Takes-count (is_at q) v rows rest t,
            Takes-count (is_at (suc q)) v rows rest t,
            s.represents.dense q,
            s.represents.dense (suc q),
          );
          items = rows_of-All (IsItem (remove_at p xs)) (map (shift_marked p) rest) items';
          same_length = omega (
            arith,
            shorter,
            shift-length p rest,
            Takes-length v rows rest t,
            s.represents.same_length,
          );
        };
        marks = marks';
        fits = omega (arith, shorter);
      },
    )

unmarked-count :
    (first k : ℕ) (rows : List Marked)
    → 0 < k
    → AreUnmarked rows
    → All (IsMarked first k) rows
    → count (is_at first) (rows_of rows) ≡ 0
unmarked-count first k [] h a b = refl
unmarked-count first k ((m, r) ∷ rows) h a b =
    ground (arith, unmarked-count first k rows h a.1 b.1, a.0, b.0)

delete_marked-Represents :
    (fuel : ℕ) (rows : List Marked) (xs : List ℕ) (first k : ℕ)
    → k ≤ fuel
    → Selects rows xs first k
    → Represents (rows_of (delete_marked fuel rows)) (remove_range first k xs)
unfolding delete_marked
delete_marked-Represents zero rows xs first zero h s = rw (remove_range_none first xs) s.represents
delete_marked-Represents zero rows xs first (suc k) h s = absurd (omega arith)
delete_marked-Represents (suc fuel) rows xs first zero h s = elim (next_marked-cases rows) [
  | inl (e, a) ↦ rw (e, delete_marked, remove_range_none first xs) s.represents
  | inr (v, rest, e, t) ↦
      let (mark, _) = Takes-All (IsMarked first 0) v rows rest t s.marks in
      absurd (ground (arith, mark))
]
delete_marked-Represents (suc fuel) rows xs first (suc k) h s = elim (next_marked-cases rows) [
  | inl (e, a) ↦
      let fits = s.fits in
      absurd (
        ground (
          arith,
          unmarked-count first (suc k) rows (omega arith) a s.marks,
          s.represents.dense first,
        ))
  | inr (v, rest, e, t) ↦
      let (low, high, s') = delete-Selects v rows rest xs first k t s in
      let ih =
        delete_marked-Represents fuel (map (shift_marked v.position) rest) _ first k (omega arith)
          s' in
      rw (e, delete_marked)
        (subst
          (λ ys. Represents (rows_of (delete_marked fuel (map (shift_marked v.position) rest))) ys)
          (remove_range-step v.position first k xs low high s.fits) ih)
]

mark_range-rows_of :
    (first last : ℕ) (rows : List Row) → rows_of (map (mark_range first last) rows) ≡ rows
mark_range-rows_of first last [] = refl
mark_range-rows_of first last (r ∷ rows) = ap (◌∷◌ r) (mark_range-rows_of first last rows)

mark_range-IsMarked :
    (first k : ℕ) (rows : List Row)
    → All (IsMarked first k) (map (mark_range first (first + k)) rows)
mark_range-IsMarked first k [] = tt
mark_range-IsMarked first k (r ∷ rows) = (refl, mark_range-IsMarked first k rows)

-- Deleting the positions of a range that lies in the list removes that range from it.
pub delete_range-Represents :
    (first k : ℕ) (rows : List Row) (xs : List ℕ)
    → first + k ≤ length xs
    → Represents rows xs
    → Represents (delete_range first (first + k) rows) (remove_range first k xs)
unfolding delete_range
delete_range-Represents first k rows xs h v =
    delete_marked-Represents (length rows) (map (mark_range first (first + k)) rows) xs first k
      (omega (arith, v.same_length))
      (record {
        represents = rw (mark_range-rows_of first (first + k) rows) v;
        marks = mark_range-IsMarked first k rows;
        fits = h;
      })
