-- ===== src/Thumbnails/Frame.antt =====
-- What a thumbnail that is set for one entity leaves to the others.
use medialibrary.Common.{
  ℕ, ◌==◌, ==_iff, ltb, ◌≡◌, refl, ap, ◌∙◌, if◌then◌else◌, true, false, not, ◌||◌, Option, none,
  some, List, [], ◌∷◌, ◌++◌, map, Bytes, All, arith, Bool-cases, inl, inr,
}
use medialibrary.Thumbnails.{
  Status, Origin, Thumbnail, Key, Link, Tables, same_key, link_of, lookup_row, increment, decrement,
  without, redirect,
}
use medialibrary.Thumbnails.Counted.{count, IsCountedBy, count-without}

-- What is shown of a thumbnail.
abbrev pub face : Option Thumbnail → Option (Bytes × Status)
face none = none
face (some r) = some (r.mrl, r.status)

abbrev pub target : List Thumbnail → Option Link → Option (Bytes × Status)
target rows none = none
target rows (some l) = face (lookup_row l.thumbnail rows)

-- The thumbnail of an entity.
abbrev pub shown : Key → Tables → Option (Bytes × Status)
shown key t = target t.rows (link_of key t.links)

pub face-increment :
    (i id : ℕ) (rows : List Thumbnail)
    → face (lookup_row i (increment id rows)) ≡ face (lookup_row i rows)
face-increment i id [] = refl
face-increment i id (r ∷ rows) = elim (Bool-cases (r.id == id)) [
  | inl s ↦ elim (Bool-cases (r.id == i)) [
    | inl q ↦ rw (s, q) refl
    | inr q ↦ rw (s, q) (face-increment i id rows)
  ]
  | inr s ↦ elim (Bool-cases (r.id == i)) [
    | inl q ↦ rw (s, q) refl
    | inr q ↦ rw (s, q) (face-increment i id rows)
  ]
]

keys_apart : (a b c : Key) → same_key a b ≡ true → same_key b c ≡ false → same_key a c ≡ false
keys_apart a b c s n = ground (arith, s, n)

pub link_of-redirect :
    (key other : Key) (id : ℕ) (origin : Origin) (links : List Link)
    → same_key key other ≡ false
    → link_of other (redirect key id origin links) ≡ link_of other links
link_of-redirect key other id origin [] n = refl
link_of-redirect key other id origin (l ∷ links) n = elim (Bool-cases (same_key l.key key)) [
  | inl s ↦ rw (s, keys_apart l.key key other s n) refl
  | inr s ↦ elim (Bool-cases (same_key l.key other)) [
    | inl q ↦ rw (s, q) refl
    | inr q ↦ rw (s, q) (link_of-redirect key other id origin links n)
  ]
]

pub link_of-without :
    (key other : Key) (links : List Link)
    → same_key key other ≡ false
    → link_of other (without key links) ≡ link_of other links
link_of-without key other [] n = refl
link_of-without key other (l ∷ links) n = elim (Bool-cases (same_key l.key key)) [
  | inl s ↦ rw (s, keys_apart l.key key other s n) refl
  | inr s ↦ elim (Bool-cases (same_key l.key other)) [
    | inl q ↦ rw (s, q) refl
    | inr q ↦ rw (s, q) (link_of-without key other links n)
  ]
]

pub link_of-append :
    (key other : Key) (id : ℕ) (origin : Origin) (links : List Link)
    → same_key key other ≡ false
    → link_of other (links ++ record { key = key; thumbnail = id; origin = origin } ∷ [])
      ≡ link_of other links
link_of-append key other id origin [] n = rw n refl
link_of-append key other id origin (l ∷ links) n = elim (Bool-cases (same_key l.key other)) [
  | inl s ↦ rw s refl
  | inr s ↦ rw s (link_of-append key other id origin links n)
]

pub count-linked :
    (other : Key) (l : Link) (links : List Link)
    → link_of other links ≡ some l
    → ltb 0 (count l.thumbnail links) ≡ true
count-linked other l links e = ground (arith, count-without l.thumbnail other l links e)

-- Two links to one thumbnail make it shared.
pub count-both :
    (key other : Key) (l m : Link) (links : List Link)
    → same_key key other ≡ false
    → link_of key links ≡ some l
    → link_of other links ≡ some m
    → l.thumbnail ≡ m.thumbnail
    → ltb 1 (count m.thumbnail links) ≡ true
count-both key other l m links n e f same =
    let rest = count-linked other m (without key links) (link_of-without key other links n ∙ f) in
    ground (arith, rest, count-without m.thumbnail key l links e, same)

-- The row of an entity that keeps a link keeps its face.
pub face-decrement :
    (fresh i id : ℕ) (c : ℕ → ℕ) (rows : List Thumbnail)
    → All (IsCountedBy fresh c) rows
    → (not (id == i) || ltb 1 (c i)) ≡ true
    → face (lookup_row i (decrement id rows)) ≡ face (lookup_row i rows)
face-decrement fresh i id c [] a n = refl
face-decrement fresh i id c (r ∷ rows) a n =
    let rest = face-decrement fresh i id c rows a.1 n in
    elim (Bool-cases (r.id == i)) [
      | inl q ↦ elim (Bool-cases (r.id == id)) [
        | inl s ↦
            let same : c r.id ≡ c i = ap c ((==_iff r.id i).0 q) in
            let more : (r.shared_counter == 1) ≡ false = ground (arith, a.0, n, q, s, same) in
            rw (s, more, q) refl
        | inr s ↦ rw (s, q) refl
      ]
      | inr q ↦ elim (Bool-cases (r.id == id)) [
        | inl s ↦ elim (Bool-cases (r.shared_counter == 1)) [
          | inl o ↦ rw (s, o, q) rest
          | inr o ↦ rw (s, o, q) rest
        ]
        | inr s ↦ rw (s, q) rest
      ]
    ]

pub face-append :
    (i : ℕ) (r : Thumbnail) (rows : List Thumbnail)
    → (r.id == i) ≡ false
    → face (lookup_row i (rows ++ r ∷ [])) ≡ face (lookup_row i rows)
face-append i r [] n = rw n refl
face-append i r (x ∷ rows) n = elim (Bool-cases (x.id == i)) [
  | inl s ↦ rw s refl
  | inr s ↦ rw s (face-append i r rows n)
]

pub face-refresh :
    (i id : ℕ) (f : Thumbnail → Thumbnail) (rows : List Thumbnail)
    → (id == i) ≡ false
    → ((r : Thumbnail) → (f r).id ≡ r.id)
    → face (lookup_row i (map (λ (r : Thumbnail). if r.id == id then f r else r) rows))
      ≡ face (lookup_row i rows)
face-refresh i id f [] n k = refl
face-refresh i id f (r ∷ rows) n k = elim (Bool-cases (r.id == id)) [
  | inl s ↦
      let apart : (r.id == i) ≡ false = ground (arith, s, n) in
      let moved : ((f r).id == i) ≡ false = ap (λ x. x == i) (k r) ∙ apart in
      rw (s, apart, moved) (face-refresh i id f rows n k)
  | inr s ↦ elim (Bool-cases (r.id == i)) [
    | inl q ↦ rw (s, q) refl
    | inr q ↦ rw (s, q) (face-refresh i id f rows n k)
  ]
]
