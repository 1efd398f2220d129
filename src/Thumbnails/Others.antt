-- ===== src/Thumbnails/Others.antt =====
-- A thumbnail that is set for one entity leaves those of the others.
use medialibrary.Common.{
  ◌==◌, ltb, ◌≡◌, refl, sym, ap, subst, ◌∙◌, if◌then◌else◌, false, not, ◌&&◌, Option, none, some,
  arith, if-either, if-given,
}
use medialibrary.Thumbnails.{
  Thumbnail, Key, Link, Tables, Given, same_key, has_row, link_of, lookup_row, update_link, insert,
  id_of, update_row, update_or_replace, should_update_thumbnail, set_linked, set_from,
  set_thumbnail, is_available, same_origin,
}
use medialibrary.Thumbnails.Sharing.{IsCounted}
use medialibrary.Thumbnails.Frame.{shown}
use medialibrary.Thumbnails.Rows.{
  lookup-row, fresh_of, insert-IsCountedBut, insert-links, update_row-links, update_row-IsCounted,
}
use medialibrary.Thumbnails.Apart.{
  update_link-shown, insert-shown, insert_link-shown, update_row-shown, OwnsFailures, lookup-owned,
}

linked_anew_shown :
    (key other : Key) (new : Given) (l : Link) (t : Tables)
    → same_key key other ≡ false
    → link_of key t.links ≡ some l
    → IsCounted t
    → shown other (update_link key l.thumbnail (id_of new t) new.origin (insert new t))
      ≡ shown other t
linked_anew_shown key other new l t n e v =
    update_link-shown (fresh_of new t) key other l (id_of new t) new.origin (insert new t) n
      (ap (link_of key) (insert-links new t) ∙ e) (insert-IsCountedBut new t v).counted
    ∙ insert-shown other new t v

linked_again_shown :
    (key other : Key) (new : Given) (l : Link) (old : Thumbnail) (t : Tables)
    → same_key key other ≡ false
    → link_of key t.links ≡ some l
    → lookup_row l.thumbnail t.rows ≡ some old
    → ltb 1 old.shared_counter ≡ false
    → IsCounted t
    → shown other (update_link key l.thumbnail l.thumbnail new.origin (update_row old new t))
      ≡ shown other t
linked_again_shown key other new l old t n e r alone v =
    update_link-shown 0 key other l l.thumbnail new.origin (update_row old new t) n
      (ap (link_of key) (update_row-links old new t) ∙ e) (update_row-IsCounted old new t v).counted
    ∙ update_row-shown key other l old new t n e r alone v

update_or_replace-shown :
    (key other : Key) (new : Given) (l : Link) (old : Thumbnail) (t : Tables)
    → same_key key other ≡ false
    → link_of key t.links ≡ some l
    → lookup_row l.thumbnail t.rows ≡ some old
    → IsCounted t
    → OwnsFailures t
    → shown other (update_or_replace should_update_thumbnail key new l old t) ≡ shown other t
unfolding update_or_replace
update_or_replace-shown key other new l old t n e r v o =
    let P : Tables → Type 0 = λ x. shown other x ≡ shown other t in
    let i = (lookup-row l.thumbnail t.rows old r).0 in
    let updated : ltb 1 old.shared_counter ≡ false → P (update_row old new t) =
      λ alone. update_row-shown key other l old new t n e r alone v in
    let again : ltb 1 old.shared_counter ≡ false
        → P (update_link key old.id old.id new.origin (update_row old new t)) =
      λ alone.
        subst (λ x. P (update_link key x x new.origin (update_row old new t))) (sym i)
          (linked_again_shown key other new l old t n e r alone v) in
    let anew : P (update_link key old.id (id_of new t) new.origin (insert new t)) =
      subst (λ x. P (update_link key x (id_of new t) new.origin (insert new t))) (sym i)
        (linked_anew_shown key other new l t n e v) in
    let in_place =
      if same_origin l.origin new.origin
      then update_row old new t
      else update_link key old.id old.id new.origin (update_row old new t) in
    let replaced =
      if should_update_thumbnail old l.origin && new.id == 0
      then in_place
      else update_link key old.id (id_of new t) new.origin (insert new t) in
    if-given P (not (new.id == 0) && old.id == new.id) t
      (if not (is_available old.status) then update_row old new t else replaced) (λ s. refl)
      (λ s.
        if-given P (not (is_available old.status)) (update_row old new t) replaced
          (λ f. updated (ground (arith, f, lookup-owned l.thumbnail t.rows old r o)))
          (λ f.
            if-given P (should_update_thumbnail old l.origin && new.id == 0) in_place
              (update_link key old.id (id_of new t) new.origin (insert new t))
              (λ a.
                let alone : ltb 1 old.shared_counter ≡ false = ground (arith, a) in
                if-either P (same_origin l.origin new.origin) (update_row old new t)
                  (update_link key old.id old.id new.origin (update_row old new t)) (updated alone)
                  (again alone))
              (λ a. anew)))

set_linked-shown :
    (key other : Key) (new : Given) (l : Link) (found : Option Thumbnail) (t : Tables)
    → same_key key other ≡ false
    → link_of key t.links ≡ some l
    → lookup_row l.thumbnail t.rows ≡ found
    → IsCounted t
    → OwnsFailures t
    → shown other (set_linked should_update_thumbnail key new l found t) ≡ shown other t
unfolding set_linked
set_linked-shown key other new l none t n e r v o = refl
set_linked-shown key other new l (some old) t n e r v o =
    update_or_replace-shown key other new l old t n e r v o

set_from-shown :
    (key other : Key) (new : Given) (linked : Option Link) (t : Tables)
    → same_key key other ≡ false
    → link_of key t.links ≡ linked
    → IsCounted t
    → OwnsFailures t
    → shown other (set_from should_update_thumbnail key new linked t) ≡ shown other t
unfolding set_from
set_from-shown key other new none t n e v o =
    insert_link-shown key other (id_of new t) new.origin (insert new t) n
    ∙ insert-shown other new t v
set_from-shown key other new (some l) t n e v o =
    set_linked-shown key other new l (lookup_row l.thumbnail t.rows) t n e refl v o

-- If the counters are right and no failure is shared, a thumbnail that is set for one medium or artist
-- leaves what every other entity shows, also where it was shared with them.
pub set_thumbnail-shown :
    (key other : Key) (new : Given) (t : Tables)
    → same_key key other ≡ false
    → IsCounted t
    → OwnsFailures t
    → shown other (set_thumbnail should_update_thumbnail key new t) ≡ shown other t
unfolding set_thumbnail
set_thumbnail-shown key other new t n v o =
    if-either (λ (x : Tables). shown other x ≡ shown other t)
      (not (new.id == 0) && not (has_row new.id t.rows)) t
      (set_from should_update_thumbnail key new (link_of key t.links) t) refl
      (set_from-shown key other new (link_of key t.links) t n refl v o)
