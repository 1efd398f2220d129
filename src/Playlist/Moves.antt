-- ===== src/Playlist/Moves.antt =====
-- Playlists: additions, removals and moves on the list that the rows represent.
use medialibrary.Common.{
  ℕ, zero, suc, ◌+◌, ◌-◌, ◌%◌, ◌≤◌, ◌<◌, ◌==◌, ltb, leb, ◌≡◌, ◌≢◌, refl, ap, subst, ◌∙◌,
  if◌then◌else◌, Bool, true, false, ◌&&◌, ◌||◌, some, List, [], ◌∷◌, length, take, drop, get_elem?,
  count, All, arith, length-append, length-take, length-drop, take-append-drop, Bool-cases, inl,
  inr,
}
use medialibrary.Playlist.{
  Row, uint32, uint32_max, insert_row, insert_position, add_internal, remove_internal, media_at,
  media_from, move,
}
use medialibrary.Playlist.Positions.{is_at, IsItem, Represents, insert_row-Represents}
use medialibrary.Playlist.Ranges.{
  insert_at, length-insert_at, insert_all, insert_all-insert_at, remove_range, remove_range_none,
}
use medialibrary.Playlist.Deletion.{delete_range-Represents}

-- The given position, or the end of a list that is shorter.
abbrev pub target : ℕ → List ℕ → ℕ
target position xs = if ltb position (length xs) then position else length xs

-- The list after an addition; the positions do not wrap around.
pub add_internal-Represents :
    (ids : List ℕ) (position : ℕ) (rows : List Row) (xs : List ℕ)
    → (position ≢ uint32_max → position + length ids ≤ uint32_max)
    → length xs + length ids ≤ uint32_max
    → Represents rows xs
    → Represents (add_internal ids position rows) (insert_all (target position xs) ids xs)
unfolding add_internal
add_internal-Represents [] position rows xs h l v = rw (take-append-drop (target position xs) xs) v
add_internal-Represents (m ∷ ids) position rows xs h l v =
    let t = target position xs in
    let position' = if position == uint32_max then position else (position + 1) % uint32 in
    let at : insert_position position rows ≡ t = ground (arith, v.same_length) in
    let inside : t ≤ length xs = ground arith in
    let one = insert_row-Represents t m rows xs inside v in
    let longer = length-insert_at t m xs in
    let next : target position' (insert_at t m xs) ≡ suc t = ground (arith, longer, h) in
    let ih =
      add_internal-Represents ids position' (insert_row m t rows) (insert_at t m xs)
        (λ n. ground (arith, h)) (omega (arith, longer)) one in
    let same =
      ap (λ p. insert_all p ids (insert_at t m xs)) next ∙ insert_all-insert_at t m ids xs inside in
    rw at (subst (λ ys. Represents (add_internal ids position' (insert_row m t rows)) ys) same ih)

-- The removal of a range that lies in the list.
pub remove_internal-Represents :
    (position n : ℕ) (rows : List Row) (xs : List ℕ)
    → position + n ≤ length xs
    → length xs ≤ uint32_max
    → Represents rows xs
    → Represents (remove_internal position n rows) (remove_range position n xs)
unfolding remove_internal
remove_internal-Represents position zero rows xs h l v = rw (remove_range_none position xs) v
remove_internal-Represents position (suc n) rows xs h l v =
    let small : (position + suc n) % uint32 ≡ position + suc n = omega arith in
    let taken : (suc n == 0) ≡ false = ground arith in
    rw (small, taken) (delete_range-Represents position (suc n) rows xs h v)

pub media_at-get :
    (p : ℕ) (rows : List Row) (xs : List ℕ)
    → 0 < count (is_at p) rows
    → All (IsItem xs) rows
    → get_elem? xs p ≡ some (media_at p rows)
unfolding media_at
media_at-get p [] xs h a = absurd (omega arith)
media_at-get p (r ∷ rows) xs h a = ground (arith, a.0, media_at-get p rows xs)

-- No media has the identifier 0.
abbrev pub AreIds : List ℕ → Type 0
AreIds = All (λ m. 0 < m)

pub get-drop :
    (p : ℕ) (xs : List ℕ) (m : ℕ) → get_elem? xs p ≡ some m → drop p xs ≡ m ∷ drop (suc p) xs
get-drop p [] m e = cc
get-drop zero (x ∷ xs) m e = ground (arith, e)
get-drop (suc p) (x ∷ xs) m e = get-drop p xs m e

get-AreIds : (p : ℕ) (xs : List ℕ) (m : ℕ) → AreIds xs → get_elem? xs p ≡ some m → 0 < m
get-AreIds p [] m a e = cc
get-AreIds zero (x ∷ xs) m a e = ground (arith, e, a.0)
get-AreIds (suc p) (x ∷ xs) m a e = get-AreIds p xs m a.1 e

media_from-Represents :
    (from n : ℕ) (rows : List Row) (xs : List ℕ)
    → from + n ≤ length xs
    → AreIds xs
    → Represents rows xs
    → media_from from n rows ≡ some (take n (drop from xs))
unfolding media_from
media_from-Represents from zero rows xs h a v = refl
media_from-Represents from (suc n) rows xs h a v =
    let found = media_at-get from rows xs (ground (arith, v.dense from)) v.items in
    let positive = get-AreIds from xs _ a found in
    let e : from + 1 ≡ suc from = omega arith in
    let ih : media_from (from + 1) n rows ≡ some (take n (drop (suc from) xs)) =
      rw e (media_from-Represents (suc from) n rows xs (omega arith) a v) in
    rw (get-drop from xs _ found) (ground (arith, positive, ih))

-- Whether a move has nothing to do: no item, or a target within the range.
abbrev pub stays : ℕ → ℕ → ℕ → Bool
stays from position n = n == 0 || (leb from position && ltb position (from + n))

-- The place of the first item of the range, once the range is out.
abbrev pub new_position : ℕ → ℕ → ℕ → ℕ
new_position from position n = if ltb position from then position else position + 1 - n

-- What a move makes of the list: the range goes out, and comes back with its last item at the
-- target, or with its first one at a target in front of it.
abbrev pub move_items : ℕ → ℕ → ℕ → List ℕ → List ℕ
move_items from position n xs =
    let rest = remove_range from n xs in
    if stays from position n
    then xs
    else insert_all (target (new_position from position n) rest) (take n (drop from xs)) rest

move-stays :
    (from position n : ℕ) (rows : List Row)
    → from + n ≤ uint32_max
    → position < uint32_max
    → stays from position n ≡ true
    → move from position n rows ≡ (rows, true)
unfolding move
move-stays from position n rows h small s = ground (arith)

move_goes :
    (from position n : ℕ) (rows : List Row) (ids : List ℕ)
    → from + n ≤ uint32_max
    → position < uint32_max
    → stays from position n ≡ false
    → media_from from n rows ≡ some ids
    → move from position n rows
      ≡ (add_internal ids (new_position from position n) (remove_internal from n rows), true)
unfolding move
move_goes from position n rows ids h small s e =
    let bound : (from + n) % uint32 - from ≡ n = omega arith in
    let place : (if ltb position from then position else (position + uint32 - (n - 1)) % uint32)
        ≡ new_position from position n =
      ground (arith, s) in
    let none_taken : (n == 0) ≡ false = ground (arith, s) in
    let outside : (leb from position && leb ((position + 1) % uint32) ((from + n) % uint32))
        ≡ false =
      ground (arith, s) in
    ground (arith, bound, place, none_taken, outside, e)

-- Of a playlist whose rows represent a list of media, a move of a range that lies in it leads to
-- the moved list, and succeeds.
pub move-Represents :
    (from position n : ℕ) (rows : List Row) (xs : List ℕ)
    → from + n ≤ length xs
    → length xs ≤ uint32_max
    → position < uint32_max
    → AreIds xs
    → Represents rows xs
    → Represents (move from position n rows).0 (move_items from position n xs)
      × ((move from position n rows).1 ≡ true)
move-Represents from position n rows xs h l small a v =
    let rest = remove_range from n xs in
    let removed = remove_internal-Represents from n rows xs h l v in
    let ids = take n (drop from xs) in
    let sizes : length rest + length ids ≡ length xs = omega (
      arith,
      length-append (take from xs) (drop (from + n) xs),
      length-take from xs,
      length-drop (from + n) xs,
      length-take n (drop from xs),
      length-drop from xs,
    ) in
    elim (Bool-cases (stays from position n)) [
      | inl s ↦ rw (move-stays from position n rows (omega arith) small s, s) (v, refl)
      | inr s ↦
          let e =
            move_goes from position n rows ids (omega arith) small s
              (media_from-Represents from n rows xs h a v) in
          let added =
            add_internal-Represents ids (new_position from position n) (remove_internal from n rows)
              rest (λ differs. ground (arith, sizes, s, length-take n (drop from xs)))
              (omega (arith, sizes)) removed in
          rw (e, s) (added, refl)
    ]
