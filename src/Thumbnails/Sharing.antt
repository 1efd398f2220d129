-- ===== src/Thumbnails/Sharing.antt =====
-- The thumbnails that are shared: their counters and their links under any changes.
use medialibrary.Common.{
  ℕ, ◌+◌, ◌==◌, ==_iff, ltb, ◌≡◌, refl, subst, ◌∙◌, if◌then◌else◌, true, false, not, ◌&&◌, ◌||◌,
  Option, none, some, List, [], ◌∷◌, ◌++◌, All, All-imp, arith, Bool-cases, inl, inr,
}
use medialibrary.Thumbnails.{
  Origin, Thumbnail, Key, Link, Tables, has_row, link_of, increment, decrement, without, redirect,
  unlink_from, unlink, insert_link, update_link,
}
use medialibrary.Thumbnails.Counted.{
  count, IsCountedBy, count-without, count-redirect, count-append, decrement-counts,
  increment-counts, has_row-increment, has_row-decrement,
}

-- Each counter is the number of the links to its thumbnail, which has one unless it is `fresh`, and
-- each link is to a thumbnail.
pub record IsCountedBut (fresh : ℕ) (t : Tables) : Type 0 where
  pub counted : All (IsCountedBy fresh (λ i. count i t.links)) t.rows
  pub resolved : (i : ℕ) → ltb 0 (count i t.links) ≡ true → has_row i t.rows ≡ true
  pub bounded : All (λ (r : Thumbnail). ltb r.id t.next_id ≡ true) t.rows
  pub is_real : (t.next_id == 0) ≡ false

abbrev pub IsCounted : Tables → Type 0
IsCounted = IsCountedBut 0

bounded-increment :
    (next id : ℕ) (rows : List Thumbnail)
    → All (λ (r : Thumbnail). ltb r.id next ≡ true) rows
    → All (λ (r : Thumbnail). ltb r.id next ≡ true) (increment id rows)
bounded-increment next id [] a = tt
bounded-increment next id (r ∷ rows) a = (ground (arith, a.0), bounded-increment next id rows a.1)

bounded-decrement :
    (next id : ℕ) (rows : List Thumbnail)
    → All (λ (r : Thumbnail). ltb r.id next ≡ true) rows
    → All (λ (r : Thumbnail). ltb r.id next ≡ true) (decrement id rows)
bounded-decrement next id [] a = tt
bounded-decrement next id (r ∷ rows) a = elim (Bool-cases (r.id == id)) [
  | inl s ↦ elim (Bool-cases (r.shared_counter == 1)) [
    | inl o ↦ rw (s, o) (bounded-decrement next id rows a.1)
    | inr o ↦ rw (s, o) (a.0, bounded-decrement next id rows a.1)
  ]
  | inr s ↦ rw s (a.0, bounded-decrement next id rows a.1)
]

pub has_row-bounded :
    (next id : ℕ) (rows : List Thumbnail)
    → All (λ (r : Thumbnail). ltb r.id next ≡ true) rows
    → has_row id rows ≡ true
    → ltb id next ≡ true
has_row-bounded next id [] a h = cc
has_row-bounded next id (r ∷ rows) a h = ground (arith, a.0, h, has_row-bounded next id rows a.1)

has_row-other :
    (i id : ℕ) (rows : List Thumbnail)
    → (id == i) ≡ false
    → has_row i (decrement id rows) ≡ has_row i rows
has_row-other i id [] n = refl
has_row-other i id (r ∷ rows) n = elim (Bool-cases (r.id == id)) [
  | inl s ↦ elim (Bool-cases (r.shared_counter == 1)) [
    | inl o ↦ rw (s, o) (ground (arith, n, s, has_row-other i id rows n))
    | inr o ↦ rw (s, o) (ground (arith, has_row-other i id rows n))
  ]
  | inr s ↦ rw s (ground (arith, has_row-other i id rows n))
]

unlink_from-IsCounted :
    (o : Option Link) (key : Key) (t : Tables)
    → link_of key t.links ≡ o
    → IsCounted t
    → IsCounted (unlink_from o key t)
unlink_from-IsCounted none key t e v = v
unlink_from-IsCounted (some l) key t e v =
    let before : ℕ → ℕ = λ i. count i t.links in
    let after : ℕ → ℕ = λ i. count i (without key t.links) in
    record {
      counted =
          decrement-counts 0 l.thumbnail before after t.rows (ground arith)
            (λ i. count-without i key l t.links e) v.counted;
      resolved = λ i p.
          has_row-decrement 0 i l.thumbnail before after t.rows
            (λ j. count-without j key l t.links e) p v.counted
            (v.resolved i (ground (arith, p, count-without i key l t.links e)));
      bounded = bounded-decrement t.next_id l.thumbnail t.rows v.bounded;
      is_real = v.is_real;
    }

pub unlink-IsCounted : (key : Key) (t : Tables) → IsCounted t → IsCounted (unlink key t)
unfolding unlink
unlink-IsCounted key t v = unlink_from-IsCounted (link_of key t.links) key t refl v

pub insert_link-IsCounted :
    (fresh : ℕ) (key : Key) (id : ℕ) (origin : Origin) (t : Tables)
    → (fresh == 0 || fresh == id) ≡ true
    → has_row id t.rows ≡ true
    → IsCountedBut fresh t
    → IsCounted (insert_link key id origin t)
unfolding insert_link
insert_link-IsCounted fresh key id origin t n h v =
    let l : Link = record { key = key; thumbnail = id; origin = origin } in
    record {
      counted =
          increment-counts fresh id (λ i. count i t.links) (λ i. count i (t.links ++ l ∷ [])) t.rows
            n (λ i. count-append i l t.links) v.counted;
      resolved = λ i p. has_row-increment i id t.rows ∙ elim (Bool-cases (id == i)) [
        | inl q ↦ subst (λ j. has_row j t.rows ≡ true) ((==_iff id i).0 q) h
        | inr q ↦ v.resolved i (ground (arith, p, q, count-append i l t.links))
      ];
      bounded = bounded-increment t.next_id id t.rows v.bounded;
      is_real = v.is_real;
    }

pub update_link-IsCounted :
    (fresh : ℕ) (key : Key) (l : Link) (id : ℕ) (origin : Origin) (t : Tables)
    → link_of key t.links ≡ some l
    → (fresh == 0 || (fresh == id && not (l.thumbnail == fresh))) ≡ true
    → has_row id t.rows ≡ true
    → IsCountedBut fresh t
    → IsCounted (update_link key l.thumbnail id origin t)
unfolding update_link
update_link-IsCounted fresh key l id origin t e n h v =
    let links = redirect key id origin t.links in
    elim (Bool-cases (l.thumbnail == id)) [
      | inl q ↦
          let same : (i : ℕ) → count i links ≡ count i t.links =
            λ i. ground (arith, q, count-redirect i key l id origin t.links e) in
          rw q (record {
            counted =
                All-imp (IsCountedBy fresh (λ i. count i t.links))
                  (IsCountedBy 0 (λ i. count i links)) t.rows
                  (λ r c. ground (arith, c, n, q, same r.id)) v.counted;
            resolved = λ i p. v.resolved i (ground (arith, p, same i));
            bounded = v.bounded;
            is_real = v.is_real;
          })
      | inr q ↦
          let before : ℕ → ℕ = λ i. count i t.links in
          let between : ℕ → ℕ = λ i. count i (without key t.links) in
          let split : (i : ℕ) → before i ≡ between i + (if l.thumbnail == i then 1 else 0) =
            λ i. count-without i key l t.links e in
          let joined : (i : ℕ)
              → count i links ≡ count i (without key t.links) + (if id == i then 1 else 0) =
            λ i. ground (arith, split i, count-redirect i key l id origin t.links e) in
          rw q (record {
            counted =
                increment-counts fresh id between (λ i. count i links)
                  (decrement l.thumbnail t.rows) (ground (arith, n)) joined
                  (decrement-counts fresh l.thumbnail before between t.rows (ground (arith, n))
                    split v.counted);
            resolved = λ i p.
                has_row-increment i id (decrement l.thumbnail t.rows)
                ∙ elim (Bool-cases (id == i)) [
                  | inl z ↦
                      has_row-other i l.thumbnail t.rows (ground (arith, q, z))
                      ∙ subst (λ j. has_row j t.rows ≡ true) ((==_iff id i).0 z) h
                  | inr z ↦
                      has_row-decrement fresh i l.thumbnail before between t.rows split
                        (ground (arith, p, z, joined i)) v.counted
                        (v.resolved i (ground (arith, p, z, joined i, split i)))
                ];
            bounded =
                bounded-increment t.next_id id (decrement l.thumbnail t.rows)
                  (bounded-decrement t.next_id l.thumbnail t.rows v.bounded);
            is_real = v.is_real;
          })
    ]
