-- ===== src/Thumbnails/Rows.antt =====
-- What the insertion and the update of a row of the thumbnails keep.
use medialibrary.Common.{
  if-either, ℕ, ◌+◌, ◌==◌, ==_iff, ltb, ◌≡◌, refl, sym, ap, ◌∙◌, if◌then◌else◌, true, false, not,
  ◌&&◌, ◌||◌, Option, none, some, List, [], ◌∷◌, ◌++◌, map, bytes_eq, All, All-append, All-imp,
  arith, Bool-cases, inl, inr,
}
use medialibrary.Thumbnails.{
  available, Thumbnail, Tables, Given, has_row, lookup_row, insert, id_of, update_row, row_of,
  is_available,
}
use medialibrary.Thumbnails.Counted.{count, IsCountedBy}
use medialibrary.Thumbnails.Sharing.{IsCountedBut, IsCounted, has_row-bounded}

-- What may be given: a thumbnail that is not in the database, or one that is.
abbrev pub fresh_of : Given → Tables → ℕ
fresh_of new t = if new.id == 0 then t.next_id else 0

pub has_row-append :
    (id : ℕ) (rows : List Thumbnail) (r : Thumbnail)
    → has_row id (rows ++ r ∷ []) ≡ (has_row id rows || r.id == id)
has_row-append id [] r = ground arith
has_row-append id (x ∷ rows) r = ground (arith, has_row-append id rows r)

pub no_count : (t : Tables) → IsCounted t → (count t.next_id t.links == 0) ≡ true
no_count t v = elim (Bool-cases (ltb 0 (count t.next_id t.links))) [
  | inl p ↦
      let past : ltb t.next_id t.next_id ≡ true =
        has_row-bounded t.next_id t.next_id t.rows v.bounded (v.resolved t.next_id p) in
      ground (arith, past)
  | inr p ↦ ground (arith, p)
]

pub insert-IsCountedBut :
    (new : Given) (t : Tables) → IsCounted t → IsCountedBut (fresh_of new t) (insert new t)
unfolding insert
insert-IsCountedBut new t v = elim (Bool-cases (new.id == 0)) [
  | inl z ↦ rw z (record {
    counted =
        All-append (IsCountedBy t.next_id (λ i. count i t.links)) t.rows (row_of new t.next_id ∷ [])
          (ground (arith, no_count t v, v.is_real), tt)
          (All-imp (IsCountedBy 0 (λ i. count i t.links))
            (IsCountedBy t.next_id (λ i. count i t.links)) t.rows (λ r c. ground (arith, c))
            v.counted);
    resolved = λ i p. has_row-append i t.rows (row_of new t.next_id) ∙ rw (v.resolved i p) refl;
    bounded =
        All-append (λ (r : Thumbnail). ltb r.id (t.next_id + 1) ≡ true) t.rows
          (row_of new t.next_id ∷ []) (ground arith, tt)
          (All-imp (λ (r : Thumbnail). ltb r.id t.next_id ≡ true)
            (λ (r : Thumbnail). ltb r.id (t.next_id + 1) ≡ true) t.rows (λ r c. ground (arith, c))
            v.bounded);
    is_real = ground arith;
  })
  | inr z ↦ rw z v
]

pub insert-has_row :
    (new : Given) (t : Tables)
    → (not (new.id == 0) && not (has_row new.id t.rows)) ≡ false
    → has_row (id_of new t) (insert new t).rows ≡ true
unfolding insert
insert-has_row new t e = elim (Bool-cases (new.id == 0)) [
  | inl z ↦ rw z (has_row-append t.next_id t.rows (row_of new t.next_id) ∙ ground arith)
  | inr z ↦ rw z (ground (arith, e, z))
]

abbrev pub refreshed : ℕ → Given → Thumbnail → Thumbnail
refreshed id new r =
    if r.id == id
    then record r { mrl = new.mrl; status = available; nb_attempts = 0; is_owned = new.is_owned }
    else r

pub refresh-counted :
    (id : ℕ) (new : Given) (c : ℕ → ℕ) (rows : List Thumbnail)
    → All (IsCountedBy 0 c) rows
    → All (IsCountedBy 0 c) (map (refreshed id new) rows)
refresh-counted id new c [] a = tt
refresh-counted id new c (r ∷ rows) a = elim (Bool-cases (r.id == id)) [
  | inl s ↦ rw s (a.0, refresh-counted id new c rows a.1)
  | inr s ↦ rw s (a.0, refresh-counted id new c rows a.1)
]

pub refresh-bounded :
    (id next : ℕ) (new : Given) (rows : List Thumbnail)
    → All (λ (r : Thumbnail). ltb r.id next ≡ true) rows
    → All (λ (r : Thumbnail). ltb r.id next ≡ true) (map (refreshed id new) rows)
refresh-bounded id next new [] a = tt
refresh-bounded id next new (r ∷ rows) a = elim (Bool-cases (r.id == id)) [
  | inl s ↦ rw s (a.0, refresh-bounded id next new rows a.1)
  | inr s ↦ rw s (a.0, refresh-bounded id next new rows a.1)
]

pub has_row-refresh :
    (i id : ℕ) (new : Given) (rows : List Thumbnail)
    → has_row i (map (refreshed id new) rows) ≡ has_row i rows
has_row-refresh i id new [] = refl
has_row-refresh i id new (r ∷ rows) = ground (arith, has_row-refresh i id new rows)

pub update_row-IsCounted :
    (old : Thumbnail) (new : Given) (t : Tables) → IsCounted t → IsCounted (update_row old new t)
unfolding update_row
update_row-IsCounted old new t v =
    if-either IsCounted
      (bytes_eq old.mrl new.mrl
        && ((if new.is_owned then old.is_owned else not old.is_owned) && is_available old.status))
      t (record t { rows = map (refreshed old.id new) t.rows }) v
      (record {
        counted = refresh-counted old.id new (λ i. count i t.links) t.rows v.counted;
        resolved = λ i p. has_row-refresh i old.id new t.rows ∙ v.resolved i p;
        bounded = refresh-bounded old.id t.next_id new t.rows v.bounded;
        is_real = v.is_real;
      })

abbrev pub id_in : ℕ → Option Thumbnail → ℕ
id_in other none = other
id_in other (some r) = r.id

pub lookup-row :
    (id : ℕ) (rows : List Thumbnail) (old : Thumbnail)
    → lookup_row id rows ≡ some old
    → ((old.id ≡ id) × (has_row id rows ≡ true))
lookup-row id [] old e = cc
lookup-row id (r ∷ rows) old e = elim (Bool-cases (r.id == id)) [
  | inl s ↦ (ap (id_in 0) (sym (rw s at e)) ∙ (==_iff r.id id).0 s, ground (arith, s))
  | inr s ↦ let later = lookup-row id rows old (rw s at e) in (later.0, ground (arith, later.1))
]

pub update_row-links :
    (old : Thumbnail) (new : Given) (t : Tables) → (update_row old new t).links ≡ t.links
unfolding update_row
update_row-links old new t =
    if-either (λ (x : Tables). x.links ≡ t.links)
      (bytes_eq old.mrl new.mrl
        && ((if new.is_owned then old.is_owned else not old.is_owned) && is_available old.status))
      t (record t { rows = map (refreshed old.id new) t.rows }) refl refl

pub update_row-has_row :
    (i : ℕ) (old : Thumbnail) (new : Given) (t : Tables)
    → has_row i (update_row old new t).rows ≡ has_row i t.rows
unfolding update_row
update_row-has_row i old new t =
    if-either (λ (x : Tables). has_row i x.rows ≡ has_row i t.rows)
      (bytes_eq old.mrl new.mrl
        && ((if new.is_owned then old.is_owned else not old.is_owned) && is_available old.status))
      t (record t { rows = map (refreshed old.id new) t.rows }) refl
      (has_row-refresh i old.id new t.rows)

pub insert-links : (new : Given) (t : Tables) → (insert new t).links ≡ t.links
unfolding insert
insert-links new t = elim (Bool-cases (new.id == 0)) [ inl z ↦ rw z refl | inr z ↦ rw z refl ]
