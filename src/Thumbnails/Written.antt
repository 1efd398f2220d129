-- ===== src/Thumbnails/Written.antt =====
-- What an entity shows after each write to the thumbnails.
use medialibrary.Common.{
  ℕ, ◌==◌, ==-refl, ltb, ◌≡◌, refl, sym, ap, subst, ◌∙◌, if◌then◌else◌, true, false, not, ◌&&◌,
  none, some, List, [], ◌∷◌, ◌++◌, map, bytes_eq, bytes_eq_sound, All, arith, Bool-cases, inl, inr,
  if-given,
}
use medialibrary.Thumbnails.{
  Status, available, failure, crash, Origin, Thumbnail, Key, Link, Tables, Given, same_key, link_of,
  lookup_row, increment, decrement, redirect, insert_link, update_link, insert, id_of, row_of,
  update_row, is_available,
}
use medialibrary.Thumbnails.Counted.{count, IsCountedBy}
use medialibrary.Thumbnails.Sharing.{IsCounted}
use medialibrary.Thumbnails.Frame.{face, target, shown, face-increment, face-decrement}
use medialibrary.Thumbnails.Rows.{lookup-row, insert-IsCountedBut, update_row-links}

pub face-new :
    (new : Given) (next : ℕ) (rows : List Thumbnail)
    → All (λ (r : Thumbnail). ltb r.id next ≡ true) rows
    → face (lookup_row next (rows ++ row_of new next ∷ [])) ≡ some (new.mrl, new.status)
face-new new next [] a = rw (==-refl next) refl
face-new new next (r ∷ rows) a =
    let apart : (r.id == next) ≡ false = ground (arith, a.0) in
    rw apart (face-new new next rows a.1)

pub redirected :
    (key : Key) (l : Link) (id : ℕ) (origin : Origin) (links : List Link) (rows : List Thumbnail)
    → link_of key links ≡ some l
    → target rows (link_of key (redirect key id origin links)) ≡ face (lookup_row id rows)
redirected key l id origin [] rows e = cc
redirected key l id origin (m ∷ links) rows e = elim (Bool-cases (same_key m.key key)) [
  | inl s ↦ rw s (rw s refl)
  | inr s ↦ rw s (rw s (redirected key l id origin links rows (rw s at e)))
]

pub appended :
    (key : Key) (id : ℕ) (origin : Origin) (links : List Link) (rows : List Thumbnail)
    → link_of key links ≡ none
    → target rows
        (link_of key (links ++ record { key = key; thumbnail = id; origin = origin } ∷ []))
      ≡ face (lookup_row id rows)
appended key id origin [] rows e = let own : same_key key key ≡ true = ground arith in rw own refl
appended key id origin (m ∷ links) rows e = elim (Bool-cases (same_key m.key key)) [
  | inl s ↦ let bad : some m ≡ none = rw s at e in cc
  | inr s ↦ rw s (appended key id origin links rows (rw s at e))
]

pub face-own :
    (new : Given) (old : Thumbnail) (i : ℕ) (f : Thumbnail → Thumbnail) (rows : List Thumbnail)
    → ((r : Thumbnail) → ((f r).id ≡ r.id) × (face (some (f r)) ≡ some (new.mrl, available)))
    → lookup_row i rows ≡ some old
    → face (lookup_row i (map (λ (r : Thumbnail). if r.id == i then f r else r) rows))
      ≡ some (new.mrl, available)
face-own new old i f [] k e = cc
face-own new old i f (r ∷ rows) k e = elim (Bool-cases (r.id == i)) [
  | inl s ↦ let own : ((f r).id == i) ≡ true = ap (λ x. x == i) (k r).0 ∙ s in rw (s, own) (k r).1
  | inr s ↦ rw (s, s) (face-own new old i f rows k (rw s at e))
]

pub inserted-counted :
    (new : Given) (t : Tables)
    → (new.id == 0) ≡ true
    → IsCounted t
    → All (IsCountedBy t.next_id (λ i. count i t.links)) (t.rows ++ row_of new t.next_id ∷ [])
unfolding insert
inserted-counted new t z v = rw z at (insert-IsCountedBut new t v).counted

-- Where a thumbnail was inserted, the link of the key that goes to it shows it.
pub anew-shown :
    (key : Key) (new : Given) (l : Link) (t : Tables)
    → (new.id == 0) ≡ true
    → link_of key t.links ≡ some l
    → (l.thumbnail == t.next_id) ≡ false
    → IsCounted t
    → shown key (update_link key l.thumbnail (id_of new t) new.origin (insert new t))
      ≡ some (new.mrl, new.status)
unfolding update_link insert
anew-shown key new l t z e n v =
    let rows = t.rows ++ row_of new t.next_id ∷ [] in
    let counted : All (IsCountedBy t.next_id (λ i. count i t.links)) rows =
      inserted-counted new t z v in
    rw (z, n)
      (redirected key l t.next_id new.origin t.links
          (increment t.next_id (decrement l.thumbnail rows)) e
        ∙ face-increment t.next_id t.next_id (decrement l.thumbnail rows)
        ∙ face-decrement t.next_id t.next_id l.thumbnail (λ i. count i t.links) rows counted
            (ground (arith, n))
        ∙ face-new new t.next_id t.rows v.bounded)

pub first-shown :
    (key : Key) (new : Given) (t : Tables)
    → (new.id == 0) ≡ true
    → link_of key t.links ≡ none
    → IsCounted t
    → shown key (insert_link key (id_of new t) new.origin (insert new t))
      ≡ some (new.mrl, new.status)
unfolding insert_link insert
first-shown key new t z e v =
    let rows = t.rows ++ row_of new t.next_id ∷ [] in
    rw z (
      appended key t.next_id new.origin t.links (increment t.next_id rows) e
      ∙ face-increment t.next_id t.next_id rows
      ∙ face-new new t.next_id t.rows v.bounded)

pub available-only : (status : Status) → is_available status ≡ true → status ≡ available
available-only available e = refl
available-only failure e = cc
available-only crash e = cc

pub updated-shown :
    (key : Key) (new : Given) (l : Link) (old : Thumbnail) (t : Tables)
    → link_of key t.links ≡ some l
    → lookup_row l.thumbnail t.rows ≡ some old
    → shown key (update_row old new t) ≡ some (new.mrl, available)
unfolding update_row
updated-shown key new l old t e r =
    if-given (λ (x : Tables). shown key x ≡ some (new.mrl, available))
      (bytes_eq old.mrl new.mrl
        && ((if new.is_owned then old.is_owned else not old.is_owned) && is_available old.status))
      t
      (record t { rows = map (λ (x : Thumbnail). if x.id == old.id then refresh x else x) t.rows })
      (λ c.
        let mrl : old.mrl ≡ new.mrl = bytes_eq_sound old.mrl new.mrl (ground (arith, c)) in
        let status : old.status ≡ available = available-only old.status (ground (arith, c)) in
        ap (target t.rows) e ∙ ap face r ∙ rw (mrl, status) refl)
      (λ c.
        ap (target (map (λ (x : Thumbnail). if x.id == old.id then refresh x else x) t.rows)) e
        ∙ subst
            (λ j.
              face (
                lookup_row l.thumbnail
                  (map (λ (x : Thumbnail). if x.id == j then refresh x else x) t.rows))
              ≡ some (new.mrl, available))
            (sym (lookup-row l.thumbnail t.rows old r).0)
            (face-own new old l.thumbnail refresh t.rows (λ x. (refl, refl)) r))
  where
    refresh : Thumbnail → Thumbnail
    refresh x = record x {
      mrl = new.mrl;
      status = available;
      nb_attempts = 0;
      is_owned = new.is_owned;
    }

pub again-shown :
    (key : Key) (new : Given) (l : Link) (old : Thumbnail) (t : Tables)
    → link_of key t.links ≡ some l
    → lookup_row l.thumbnail t.rows ≡ some old
    → shown key (update_link key l.thumbnail l.thumbnail new.origin (update_row old new t))
      ≡ some (new.mrl, available)
unfolding update_link
again-shown key new l old t e r =
    let kept = ap (link_of key) (update_row-links old new t) ∙ e in
    rw (==-refl l.thumbnail) (
      redirected key l l.thumbnail new.origin (update_row old new t).links
        (update_row old new t).rows kept
      ∙ sym (ap (target (update_row old new t).rows) kept)
      ∙ updated-shown key new l old t e r)
