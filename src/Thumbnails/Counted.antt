-- ===== src/Thumbnails/Counted.antt =====
-- The counters of the thumbnails under the changes of their links.
use medialibrary.Common.{
  ℕ, ◌+◌, ◌==◌, ==_iff, ltb, ◌≡◌, refl, ap, if◌then◌else◌, true, false, not, ◌&&◌, ◌||◌, Option,
  none, some, List, [], ◌∷◌, ◌++◌, All, arith, Bool-cases, inl, inr,
}
use medialibrary.Thumbnails.{
  Origin, Thumbnail, Key, Link, same_key, has_row, link_of, increment, decrement, without, redirect,
}

abbrev pub count : ℕ → List Link → ℕ
count id [] = 0
count id (l ∷ links) = (if l.thumbnail == id then 1 else 0) + count id links

-- A row whose counter is that of `c`, and more than 0 unless it is `fresh`, 0 for none.
abbrev pub IsCountedBy : ℕ → (ℕ → ℕ) → Thumbnail → Type 0
IsCountedBy fresh c r =
    (r.shared_counter == c r.id && (not (r.id == 0) && (r.id == fresh || ltb 0 r.shared_counter)))
    ≡ true

abbrev target_of : ℕ → Option Link → ℕ
target_of other none = other
target_of other (some l) = l.thumbnail

pub count-without :
    (id : ℕ) (key : Key) (l : Link) (links : List Link)
    → link_of key links ≡ some l
    → count id links ≡ count id (without key links) + (if l.thumbnail == id then 1 else 0)
count-without id key l [] e = cc
count-without id key l (m ∷ links) e = elim (Bool-cases (same_key m.key key)) [
  | inl s ↦
      let same : m.thumbnail ≡ l.thumbnail = ap (target_of 0) (rw s at e) in
      rw s (ground (arith, same))
  | inr s ↦ rw s (ground (arith, count-without id key l links (rw s at e)))
]

pub count-redirect :
    (id : ℕ) (key : Key) (l : Link) (target : ℕ) (origin : Origin) (links : List Link)
    → link_of key links ≡ some l
    → count id (redirect key target origin links) + (if l.thumbnail == id then 1 else 0)
      ≡ count id links + (if target == id then 1 else 0)
count-redirect id key l target origin [] e = cc
count-redirect id key l target origin (m ∷ links) e = elim (Bool-cases (same_key m.key key)) [
  | inl s ↦
      let same : m.thumbnail ≡ l.thumbnail = ap (target_of 0) (rw s at e) in
      rw s (ground (arith, same))
  | inr s ↦ rw s (ground (arith, count-redirect id key l target origin links (rw s at e)))
]

pub count-append :
    (id : ℕ) (l : Link) (links : List Link)
    → count id (links ++ l ∷ []) ≡ count id links + (if l.thumbnail == id then 1 else 0)
count-append id l [] = ground arith
count-append id l (m ∷ links) = ground (arith, count-append id l links)

pub decrement-counts :
    (fresh id : ℕ) (c d : ℕ → ℕ) (rows : List Thumbnail)
    → (fresh == 0 || not (id == fresh)) ≡ true
    → ((i : ℕ) → c i ≡ d i + (if id == i then 1 else 0))
    → All (IsCountedBy fresh c) rows
    → All (IsCountedBy fresh d) (decrement id rows)
decrement-counts fresh id c d [] n e a = tt
decrement-counts fresh id c d (r ∷ rows) n e a = elim (Bool-cases (r.id == id)) [
  | inl s ↦ elim (Bool-cases (r.shared_counter == 1)) [
    | inl o ↦ rw (s, o) (decrement-counts fresh id c d rows n e a.1)
    | inr o ↦
        rw (s, o) (ground (arith, a.0, n, s, o, e r.id), decrement-counts fresh id c d rows n e a.1)
  ]
  | inr s ↦ rw s (ground (arith, a.0, s, e r.id), decrement-counts fresh id c d rows n e a.1)
]

pub increment-counts :
    (fresh id : ℕ) (c d : ℕ → ℕ) (rows : List Thumbnail)
    → (fresh == 0 || fresh == id) ≡ true
    → ((i : ℕ) → d i ≡ c i + (if id == i then 1 else 0))
    → All (IsCountedBy fresh c) rows
    → All (IsCountedBy 0 d) (increment id rows)
increment-counts fresh id c d [] n e a = tt
increment-counts fresh id c d (r ∷ rows) n e a =
    (ground (arith, a.0, n, e r.id), increment-counts fresh id c d rows n e a.1)

pub has_row-increment :
    (i id : ℕ) (rows : List Thumbnail) → has_row i (increment id rows) ≡ has_row i rows
has_row-increment i id [] = refl
has_row-increment i id (r ∷ rows) = ground (arith, has_row-increment i id rows)

-- A row that keeps a link stays.
pub has_row-decrement :
    (fresh i id : ℕ) (c d : ℕ → ℕ) (rows : List Thumbnail)
    → ((j : ℕ) → c j ≡ d j + (if id == j then 1 else 0))
    → ltb 0 (d i) ≡ true
    → All (IsCountedBy fresh c) rows
    → has_row i rows ≡ true
    → has_row i (decrement id rows) ≡ true
has_row-decrement fresh i id c d [] e p a h = h
has_row-decrement fresh i id c d (r ∷ rows) e p a h =
    let rest : has_row i rows ≡ true → has_row i (decrement id rows) ≡ true =
      has_row-decrement fresh i id c d rows e p a.1 in
    elim (Bool-cases (r.id == i)) [
      | inl q ↦ elim (Bool-cases (r.id == id)) [
        | inl s ↦
            let same : d r.id ≡ d i = ap d ((==_iff r.id i).0 q) in
            let more : (r.shared_counter == 1) ≡ false = ground (arith, p, s, a.0, e r.id, same) in
            rw (s, more) (ground (arith, q))
        | inr s ↦ rw s (ground (arith, q))
      ]
      | inr q ↦
          let later : has_row i rows ≡ true = ground (arith, q, h) in
          elim (Bool-cases (r.id == id)) [
            | inl s ↦ elim (Bool-cases (r.shared_counter == 1)) [
              | inl o ↦ rw (s, o) (rest later)
              | inr o ↦ rw (s, o) (ground (arith, rest later))
            ]
            | inr s ↦ rw s (ground (arith, rest later))
          ]
    ]
