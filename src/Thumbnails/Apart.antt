-- ===== src/Thumbnails/Apart.antt =====
-- What each write to the thumbnails leaves to the other entities.
use medialibrary.Common.{
  ℕ, ◌==◌, ==_iff, ltb, ◌≡◌, refl, sym, ap, subst, ◌∙◌, if◌then◌else◌, Bool, true, false, not, ◌&&◌,
  ◌||◌, Option, none, some, List, [], ◌∷◌, ◌++◌, map, bytes_eq, All, arith, Bool-cases, inl, inr,
  if-either,
}
use medialibrary.Thumbnails.{
  available, Origin, Thumbnail, Key, Link, Tables, Given, same_key, link_of, lookup_row, increment,
  decrement, redirect, insert_link, update_link, insert, row_of, update_row, is_available,
}
use medialibrary.Thumbnails.Counted.{count, IsCountedBy}
use medialibrary.Thumbnails.Sharing.{IsCounted, has_row-bounded}
use medialibrary.Thumbnails.Frame.{
  face, target, shown, face-increment, link_of-redirect, link_of-append, count-linked, count-both,
  face-decrement, face-append, face-refresh,
}
use medialibrary.Thumbnails.Rows.{lookup-row}

-- Whoever is linked to a row that kept its face shows the same.
target-same :
    (rows later : List Thumbnail) (before after : Option Link)
    → after ≡ before
    → ((m : Link)
        → before ≡ some m
        → face (lookup_row m.thumbnail later) ≡ face (lookup_row m.thumbnail rows))
    → target later after ≡ target rows before
target-same rows later none after e h = ap (target later) e
target-same rows later (some m) after e h = ap (target later) e ∙ h m refl

pub update_link-shown :
    (fresh : ℕ) (key other : Key) (l : Link) (id : ℕ) (origin : Origin) (t : Tables)
    → same_key key other ≡ false
    → link_of key t.links ≡ some l
    → All (IsCountedBy fresh (λ i. count i t.links)) t.rows
    → shown other (update_link key l.thumbnail id origin t) ≡ shown other t
unfolding update_link
update_link-shown fresh key other l id origin t n e a =
    let same = link_of-redirect key other id origin t.links n in
    elim (Bool-cases (l.thumbnail == id)) [
      | inl q ↦ rw q (ap (target t.rows) same)
      | inr q ↦ rw q (
          target-same t.rows (increment id (decrement l.thumbnail t.rows)) (link_of other t.links)
            (link_of other (redirect key id origin t.links)) same
            (λ m f.
              face-increment m.thumbnail id (decrement l.thumbnail t.rows)
              ∙ face-decrement fresh m.thumbnail l.thumbnail (λ i. count i t.links) t.rows a
                  (still_shared m f)))
    ]
  where
    still_shared :
        (m : Link)
        → link_of other t.links ≡ some m
        → (not (l.thumbnail == m.thumbnail) || ltb 1 (count m.thumbnail t.links)) ≡ true
    still_shared m f = elim (Bool-cases (l.thumbnail == m.thumbnail)) [
      | inl z ↦
          ground (
            arith,
            z,
            count-both key other l m t.links n e f ((==_iff l.thumbnail m.thumbnail).0 z),
          )
      | inr z ↦ ground (arith, z)
    ]

pub insert-shown :
    (other : Key) (new : Given) (t : Tables)
    → IsCounted t
    → shown other (insert new t) ≡ shown other t
unfolding insert
insert-shown other new t v = elim (Bool-cases (new.id == 0)) [
  | inr z ↦ rw z refl
  | inl z ↦ rw z (
      target-same t.rows (t.rows ++ row_of new t.next_id ∷ []) (link_of other t.links)
        (link_of other t.links) refl
        (λ m f.
          let known =
            has_row-bounded t.next_id m.thumbnail t.rows v.bounded
              (v.resolved m.thumbnail (count-linked other m t.links f)) in
          face-append m.thumbnail (row_of new t.next_id) t.rows (ground (arith, known))))
]

pub insert_link-shown :
    (key other : Key) (id : ℕ) (origin : Origin) (t : Tables)
    → same_key key other ≡ false
    → shown other (insert_link key id origin t) ≡ shown other t
unfolding insert_link
insert_link-shown key other id origin t n =
    target-same t.rows (increment id t.rows) (link_of other t.links)
      (link_of other (t.links ++ record { key = key; thumbnail = id; origin = origin } ∷ []))
      (link_of-append key other id origin t.links n) (λ m f. face-increment m.thumbnail id t.rows)

abbrev counter_in : ℕ → Option Thumbnail → ℕ
counter_in other none = other
counter_in other (some r) = r.shared_counter

lookup-counted :
    (c : ℕ → ℕ) (id : ℕ) (rows : List Thumbnail) (old : Thumbnail)
    → lookup_row id rows ≡ some old
    → All (IsCountedBy 0 c) rows
    → (old.shared_counter == c id) ≡ true
lookup-counted c id [] old e a = cc
lookup-counted c id (r ∷ rows) old e a = elim (Bool-cases (r.id == id)) [
  | inl s ↦
      let here : r.shared_counter ≡ old.shared_counter = ap (counter_in 0) (rw s at e) in
      let same : c r.id ≡ c id = ap c ((==_iff r.id id).0 s) in ground (arith, a.0, here, same)
  | inr s ↦ lookup-counted c id rows old (rw s at e) a.1
]

pub update_row-shown :
    (key other : Key) (l : Link) (old : Thumbnail) (new : Given) (t : Tables)
    → same_key key other ≡ false
    → link_of key t.links ≡ some l
    → lookup_row l.thumbnail t.rows ≡ some old
    → ltb 1 old.shared_counter ≡ false
    → IsCounted t
    → shown other (update_row old new t) ≡ shown other t
unfolding update_row
update_row-shown key other l old new t n e r alone v =
    if-either (λ (x : Tables). shown other x ≡ shown other t)
      (bytes_eq old.mrl new.mrl
        && ((if new.is_owned then old.is_owned else not old.is_owned) && is_available old.status))
      t
      (record t { rows = map (λ (r : Thumbnail). if r.id == old.id then refresh r else r) t.rows })
      refl
      (target-same t.rows (map (λ (r : Thumbnail). if r.id == old.id then refresh r else r) t.rows)
        (link_of other t.links) (link_of other t.links) refl
        (λ m f. face-refresh m.thumbnail old.id refresh t.rows (unlinked m f) (λ r. refl)))
  where
    refresh : Thumbnail → Thumbnail
    refresh r = record r {
      mrl = new.mrl;
      status = available;
      nb_attempts = 0;
      is_owned = new.is_owned;
    }

    unlinked : (m : Link) → link_of other t.links ≡ some m → (old.id == m.thumbnail) ≡ false
    unlinked m f = elim (Bool-cases (old.id == m.thumbnail)) [
      | inr z ↦ z
      | inl z ↦
          let same : l.thumbnail ≡ m.thumbnail =
            sym (lookup-row l.thumbnail t.rows old r).0 ∙ (==_iff old.id m.thumbnail).0 z in
          let both = count-both key other l m t.links n e f same in
          let counted = lookup-counted (λ i. count i t.links) l.thumbnail t.rows old r v.counted in
          let equal : count l.thumbnail t.links ≡ count m.thumbnail t.links =
            ap (λ i. count i t.links) same in
          ground (arith, both, counted, equal, alone)
    ]

-- A failure is not shared.
abbrev pub OwnsFailures : Tables → Type 0
OwnsFailures t =
    All (λ (r : Thumbnail). (is_available r.status || not (ltb 1 r.shared_counter)) ≡ true) t.rows

pub lookup-owned :
    (id : ℕ) (rows : List Thumbnail) (old : Thumbnail)
    → lookup_row id rows ≡ some old
    → All (λ (r : Thumbnail). (is_available r.status || not (ltb 1 r.shared_counter)) ≡ true) rows
    → (is_available old.status || not (ltb 1 old.shared_counter)) ≡ true
lookup-owned id [] old e a = cc
lookup-owned id (r ∷ rows) old e a = elim (Bool-cases (r.id == id)) [
  | inl s ↦ subst (λ o. owned_in o ≡ true) (rw s at e) a.0
  | inr s ↦ lookup-owned id rows old (rw s at e) a.1
]
  where
    owned_in : Option Thumbnail → Bool
    owned_in none = true
    owned_in (some x) = is_available x.status || not (ltb 1 x.shared_counter)
