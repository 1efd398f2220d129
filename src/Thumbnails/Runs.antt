-- ===== src/Thumbnails/Runs.antt =====
-- Any changes keep the counters and the links of the thumbnails.
use medialibrary.Common.{
  if-either, ◌==◌, ◌≡◌, refl, sym, ap, subst, ◌∙◌, if◌then◌else◌, Bool, true, false, not, ◌&&◌,
  Option, none, some, List, [], ◌∷◌, arith, Bool-cases, inl, inr,
}
use medialibrary.Thumbnails.{
  Origin, Thumbnail, Key, Link, Tables, Given, has_row, link_of, lookup_row, unlink, update_link,
  insert, id_of, update_row, update_or_replace, set_linked, set_from, set_thumbnail, remove_entity,
  Change, sets, unlinks, deletes, apply_all, is_available, same_origin,
}
use medialibrary.Thumbnails.Sharing.{
  IsCounted, has_row-bounded, unlink-IsCounted, insert_link-IsCounted, update_link-IsCounted,
}
use medialibrary.Thumbnails.Rows.{
  fresh_of, insert-IsCountedBut, insert-has_row, update_row-IsCounted, lookup-row, update_row-links,
  update_row-has_row, insert-links,
}

linked_anew :
    (key : Key) (new : Given) (l : Link) (t : Tables)
    → link_of key t.links ≡ some l
    → has_row l.thumbnail t.rows ≡ true
    → (not (new.id == 0) && not (has_row new.id t.rows)) ≡ false
    → IsCounted t
    → IsCounted (update_link key l.thumbnail (id_of new t) new.origin (insert new t))
linked_anew key new l t e h g v =
    let known = has_row-bounded t.next_id l.thumbnail t.rows v.bounded h in
    update_link-IsCounted (fresh_of new t) key l (id_of new t) new.origin (insert new t)
      (ap (link_of key) (insert-links new t) ∙ e) (ground (arith, known)) (insert-has_row new t g)
      (insert-IsCountedBut new t v)

linked_again :
    (key : Key) (new : Given) (l : Link) (old : Thumbnail) (t : Tables)
    → link_of key t.links ≡ some l
    → has_row l.thumbnail t.rows ≡ true
    → IsCounted t
    → IsCounted (update_link key l.thumbnail l.thumbnail new.origin (update_row old new t))
linked_again key new l old t e h v =
    update_link-IsCounted 0 key l l.thumbnail new.origin (update_row old new t)
      (ap (link_of key) (update_row-links old new t) ∙ e) (ground arith)
      (update_row-has_row l.thumbnail old new t ∙ h) (update_row-IsCounted old new t v)

update_or_replace-IsCounted :
    (should_update : Thumbnail → Origin → Bool) (key : Key) (new : Given) (l : Link)
    (old : Thumbnail) (t : Tables)
    → link_of key t.links ≡ some l
    → old.id ≡ l.thumbnail
    → has_row l.thumbnail t.rows ≡ true
    → (not (new.id == 0) && not (has_row new.id t.rows)) ≡ false
    → IsCounted t
    → IsCounted (update_or_replace should_update key new l old t)
unfolding update_or_replace
update_or_replace-IsCounted should_update key new l old t e i h g v =
    let updated = update_row-IsCounted old new t v in
    let anew =
      subst (λ x. IsCounted (update_link key x (id_of new t) new.origin (insert new t))) (sym i)
        (linked_anew key new l t e h g v) in
    let again =
      subst (λ x. IsCounted (update_link key x x new.origin (update_row old new t))) (sym i)
        (linked_again key new l old t e h v) in
    if-either IsCounted (not (new.id == 0) && old.id == new.id) t
      (if not (is_available old.status)
        then update_row old new t
        else if should_update old l.origin && new.id == 0
        then (if same_origin l.origin new.origin
            then update_row old new t
            else update_link key old.id old.id new.origin (update_row old new t))
        else update_link key old.id (id_of new t) new.origin (insert new t))
      v
      (if-either IsCounted (not (is_available old.status)) (update_row old new t)
        (if should_update old l.origin && new.id == 0
          then (if same_origin l.origin new.origin
              then update_row old new t
              else update_link key old.id old.id new.origin (update_row old new t))
          else update_link key old.id (id_of new t) new.origin (insert new t))
        updated
        (if-either IsCounted (should_update old l.origin && new.id == 0)
          (if same_origin l.origin new.origin
            then update_row old new t
            else update_link key old.id old.id new.origin (update_row old new t))
          (update_link key old.id (id_of new t) new.origin (insert new t))
          (if-either IsCounted (same_origin l.origin new.origin) (update_row old new t)
            (update_link key old.id old.id new.origin (update_row old new t)) updated again)
          anew))

set_linked-IsCounted :
    (should_update : Thumbnail → Origin → Bool) (key : Key) (new : Given) (l : Link)
    (o : Option Thumbnail) (t : Tables)
    → link_of key t.links ≡ some l
    → lookup_row l.thumbnail t.rows ≡ o
    → (not (new.id == 0) && not (has_row new.id t.rows)) ≡ false
    → IsCounted t
    → IsCounted (set_linked should_update key new l o t)
unfolding set_linked
set_linked-IsCounted should_update key new l none t e r g v = v
set_linked-IsCounted should_update key new l (some old) t e r g v =
    let found = lookup-row l.thumbnail t.rows old r in
    update_or_replace-IsCounted should_update key new l old t e found.0 found.1 g v

set_from-IsCounted :
    (should_update : Thumbnail → Origin → Bool) (key : Key) (new : Given) (o : Option Link)
    (t : Tables)
    → link_of key t.links ≡ o
    → (not (new.id == 0) && not (has_row new.id t.rows)) ≡ false
    → IsCounted t
    → IsCounted (set_from should_update key new o t)
unfolding set_from
set_from-IsCounted should_update key new none t e g v =
    insert_link-IsCounted (fresh_of new t) key (id_of new t) new.origin (insert new t)
      (ground arith) (insert-has_row new t g) (insert-IsCountedBut new t v)
set_from-IsCounted should_update key new (some l) t e g v =
    set_linked-IsCounted should_update key new l (lookup_row l.thumbnail t.rows) t e refl g v

set_thumbnail-IsCounted :
    (should_update : Thumbnail → Origin → Bool) (key : Key) (new : Given) (t : Tables)
    → IsCounted t
    → IsCounted (set_thumbnail should_update key new t)
unfolding set_thumbnail
set_thumbnail-IsCounted should_update key new t v =
    elim (Bool-cases (not (new.id == 0) && not (has_row new.id t.rows))) [
      | inl g ↦ rw g v
      | inr g ↦ rw g (set_from-IsCounted should_update key new (link_of key t.links) t refl g v)
    ]

-- Any sequence of changes keeps the counter of each thumbnail the number of the links to it, which is
-- more than 0, and each link to a thumbnail that is there, if that is so at first.
pub apply_all-IsCounted :
    (should_update : Thumbnail → Origin → Bool) (changes : List Change) (t : Tables)
    → IsCounted t
    → IsCounted (apply_all should_update changes t)
unfolding apply_all
apply_all-IsCounted should_update [] t v = v
apply_all-IsCounted should_update (sets key new ∷ changes) t v =
    apply_all-IsCounted should_update changes (set_thumbnail should_update key new t)
      (set_thumbnail-IsCounted should_update key new t v)
apply_all-IsCounted should_update (unlinks key ∷ changes) t v =
    apply_all-IsCounted should_update changes (unlink key t) (unlink-IsCounted key t v)
apply_all-IsCounted should_update (deletes entity entity_type ∷ changes) t v =
    let first : Key = record { entity = entity; entity_type = entity_type; size_type = 0 } in
    apply_all-IsCounted should_update changes (remove_entity entity entity_type t) (
      unlink-IsCounted (record { entity = entity; entity_type = entity_type; size_type = 1 })
        (unlink first t) (unlink-IsCounted first t v))
