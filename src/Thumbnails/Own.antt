-- ===== src/Thumbnails/Own.antt =====
-- A thumbnail that is set for an entity is shown for it.
use medialibrary.Common.{
  ℕ, ◌==◌, ◌≡◌, ◌≢◌, refl, sym, ap, subst, ◌∙◌, if◌then◌else◌, Bool, true, not, ◌&&◌, Option, none,
  some, List, [], ◌∷◌, arith, Bool-cases, inl, inr, if-either, if-given,
}
use medialibrary.Thumbnails.{
  available, Origin, Thumbnail, Key, Link, Tables, Given, has_row, link_of, lookup_row, update_link,
  insert, id_of, update_row, update_or_replace, set_linked, set_from, set_thumbnail, is_available,
  same_origin,
}
use medialibrary.Thumbnails.Sharing.{IsCounted, has_row-bounded}
use medialibrary.Thumbnails.Frame.{shown, count-linked}
use medialibrary.Thumbnails.Rows.{lookup-row}
use medialibrary.Thumbnails.Written.{anew-shown, first-shown, updated-shown, again-shown}

lookup-some : (id : ℕ) (rows : List Thumbnail) → has_row id rows ≡ true → lookup_row id rows ≢ none
lookup-some id [] h e = cc
lookup-some id (r ∷ rows) h e = elim (Bool-cases (r.id == id)) [
  | inl s ↦ let bad : some r ≡ none = rw s at e in cc
  | inr s ↦ lookup-some id rows (ground (arith, h, s)) (rw s at e)
]

module _ (should_update : Thumbnail → Origin → Bool) where
  replaced-shown :
      (key : Key) (new : Given) (l : Link) (old : Thumbnail) (t : Tables)
      → (new.id == 0) ≡ true
      → new.status ≡ available
      → link_of key t.links ≡ some l
      → lookup_row l.thumbnail t.rows ≡ some old
      → IsCounted t
      → shown key (update_or_replace should_update key new l old t) ≡ some (new.mrl, available)
  unfolding update_or_replace
  replaced-shown key new l old t z st e r v =
      let P : Tables → Type 0 = λ x. shown key x ≡ some (new.mrl, available) in
      let i = (lookup-row l.thumbnail t.rows old r).0 in
      let known =
        has_row-bounded t.next_id l.thumbnail t.rows v.bounded
          (lookup-row l.thumbnail t.rows old r).1 in
      let updated = updated-shown key new l old t e r in
      let again : P (update_link key old.id old.id new.origin (update_row old new t)) =
        subst (λ x. P (update_link key x x new.origin (update_row old new t))) (sym i)
          (again-shown key new l old t e r) in
      let anew : P (update_link key old.id (id_of new t) new.origin (insert new t)) =
        subst (λ x. P (update_link key x (id_of new t) new.origin (insert new t))) (sym i)
          (anew-shown key new l t z e (ground (arith, known)) v ∙ ap (λ x. some (new.mrl, x)) st) in
      let in_place =
        if same_origin l.origin new.origin
        then update_row old new t
        else update_link key old.id old.id new.origin (update_row old new t) in
      let replaced =
        if should_update old l.origin && new.id == 0
        then in_place
        else update_link key old.id (id_of new t) new.origin (insert new t) in
      if-given P (not (new.id == 0) && old.id == new.id) t
        (if not (is_available old.status) then update_row old new t else replaced)
        (λ s. ground (arith, s, z))
        (λ s. if-either P (not (is_available old.status)) (update_row old new t) replaced updated (
          if-either P (should_update old l.origin && new.id == 0) in_place
            (update_link key old.id (id_of new t) new.origin (insert new t))
            (if-either P (same_origin l.origin new.origin) (update_row old new t)
              (update_link key old.id old.id new.origin (update_row old new t)) updated again)
            anew))

  linked-shown :
      (key : Key) (new : Given) (l : Link) (found : Option Thumbnail) (t : Tables)
      → (new.id == 0) ≡ true
      → new.status ≡ available
      → link_of key t.links ≡ some l
      → lookup_row l.thumbnail t.rows ≡ found
      → IsCounted t
      → shown key (set_linked should_update key new l found t) ≡ some (new.mrl, available)
  unfolding set_linked
  linked-shown key new l none t z st e r v =
      absurd
        (lookup-some l.thumbnail t.rows (v.resolved l.thumbnail (count-linked key l t.links e)) r)
  linked-shown key new l (some old) t z st e r v = replaced-shown key new l old t z st e r v

  from-shown :
      (key : Key) (new : Given) (linked : Option Link) (t : Tables)
      → (new.id == 0) ≡ true
      → new.status ≡ available
      → link_of key t.links ≡ linked
      → IsCounted t
      → shown key (set_from should_update key new linked t) ≡ some (new.mrl, available)
  unfolding set_from
  from-shown key new none t z st e v = first-shown key new t z e v ∙ ap (λ x. some (new.mrl, x)) st
  from-shown key new (some l) t z st e v =
      linked-shown key new l (lookup_row l.thumbnail t.rows) t z st e refl v

  -- If the counters are right, a thumbnail that is available and not in the database yet is what the
  -- entity shows once it is set, whatever the entity showed before.
  pub set_thumbnail-own :
      (key : Key) (new : Given) (t : Tables)
      → (new.id == 0) ≡ true
      → new.status ≡ available
      → IsCounted t
      → shown key (set_thumbnail should_update key new t) ≡ some (new.mrl, available)
  unfolding set_thumbnail
  set_thumbnail-own key new t z st v =
      if-given (λ (x : Tables). shown key x ≡ some (new.mrl, available))
        (not (new.id == 0) && not (has_row new.id t.rows)) t
        (set_from should_update key new (link_of key t.links) t) (λ s. ground (arith, s, z))
        (λ s. from-shown key new (link_of key t.links) t z st refl v)
