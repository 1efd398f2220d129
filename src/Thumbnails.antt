-- ===== src/Thumbnails.antt =====
-- src/Thumbnail.cpp: the thumbnails that media, albums and artists share, with the triggers that count
-- their links and delete those that have none. A counter below 0 does not occur.
mod Counted
mod Sharing
mod Rows
mod Runs
mod Frame
mod Apart
mod Others
mod Written
mod Own
mod Tests
use medialibrary.Common.{
  ℕ, ◌+◌, ◌-◌, ◌==◌, ltb, if◌then◌else◌, Bool, true, false, not, ◌&&◌, ◌||◌, Option, none, some,
  List, [], ◌∷◌, ◌++◌, map, Bytes, bytes_eq,
}

pub data Status : Type 0 where
  available failure crash : Status

pub data Origin : Type 0 where
  artist album_artist from_media user_provided cover_file : Origin

-- A row of the thumbnails. The text of a failure is empty.
pub record Thumbnail : Type 0 where
  pub id : ℕ
  pub mrl : Bytes
  pub status : Status
  pub nb_attempts : ℕ
  pub is_owned : Bool
  pub shared_counter : ℕ

-- The primary key of a link: an entity, its type, and a size.
pub record Key : Type 0 where
  pub entity : ℕ
  pub entity_type : ℕ
  pub size_type : ℕ

pub record Link : Type 0 where
  pub key : Key
  pub thumbnail : ℕ
  pub origin : Origin

pub record Tables : Type 0 where
  pub rows : List Thumbnail
  pub next_id : ℕ
  pub links : List Link
  pub cleanups : List Bytes

-- A thumbnail to be set; its identifier is 0 where it is not in the database.
pub record Given : Type 0 where
  pub id : ℕ
  pub mrl : Bytes
  pub status : Status
  pub is_owned : Bool
  pub origin : Origin

abbrev pub is_available : Status → Bool
is_available available = true
is_available failure = false
is_available crash = false

abbrev pub same_origin : Origin → Origin → Bool
same_origin artist o = elim o [
  | artist ↦ true
  | album_artist ↦ false
  | from_media ↦ false
  | user_provided ↦ false
  | cover_file ↦ false
]
same_origin album_artist o = elim o [
  | artist ↦ false
  | album_artist ↦ true
  | from_media ↦ false
  | user_provided ↦ false
  | cover_file ↦ false
]
same_origin from_media o = elim o [
  | artist ↦ false
  | album_artist ↦ false
  | from_media ↦ true
  | user_provided ↦ false
  | cover_file ↦ false
]
same_origin user_provided o = elim o [
  | artist ↦ false
  | album_artist ↦ false
  | from_media ↦ false
  | user_provided ↦ true
  | cover_file ↦ false
]
same_origin cover_file o = elim o [
  | artist ↦ false
  | album_artist ↦ false
  | from_media ↦ false
  | user_provided ↦ false
  | cover_file ↦ true
]

abbrev pub same_key : Key → Key → Bool
same_key k l =
    k.entity == l.entity && (k.entity_type == l.entity_type && k.size_type == l.size_type)

abbrev pub has_row : ℕ → List Thumbnail → Bool
has_row id [] = false
has_row id (r ∷ rows) = r.id == id || has_row id rows

abbrev pub lookup_row : ℕ → List Thumbnail → Option Thumbnail
lookup_row id [] = none
lookup_row id (r ∷ rows) = if r.id == id then some r else lookup_row id rows

abbrev pub link_of : Key → List Link → Option Link
link_of key [] = none
link_of key (l ∷ links) = if same_key l.key key then some l else link_of key links

-- The triggers on the counter of a thumbnail.
abbrev pub increment : ℕ → List Thumbnail → List Thumbnail
increment id = map (λ (r : Thumbnail).
    if r.id == id then record r { shared_counter = r.shared_counter + 1 } else r)

abbrev pub decrement : ℕ → List Thumbnail → List Thumbnail
decrement id [] = []
decrement id (r ∷ rows) =
    if r.id == id
    then if r.shared_counter == 1
      then decrement id rows
      else record r { shared_counter = r.shared_counter - 1 } ∷ decrement id rows
    else r ∷ decrement id rows

-- The requests for a clean-up of the rows that `decrement` deletes.
abbrev pub cleanups_of : ℕ → List Thumbnail → List Bytes
cleanups_of id [] = []
cleanups_of id (r ∷ rows) =
    if r.id == id && (r.shared_counter == 1 && (r.is_owned && is_available r.status))
    then r.mrl ∷ cleanups_of id rows
    else cleanups_of id rows

-- The link of a key, which is the first one of it, is removed, or goes to another thumbnail.
abbrev pub without : Key → List Link → List Link
without key [] = []
without key (l ∷ links) = if same_key l.key key then links else l ∷ without key links

abbrev pub redirect : Key → ℕ → Origin → List Link → List Link
redirect key id origin [] = []
redirect key id origin (l ∷ links) =
    if same_key l.key key
    then record { key = l.key; thumbnail = id; origin = origin } ∷ links
    else l ∷ redirect key id origin links

abbrev pub unlink_from : Option Link → Key → Tables → Tables
unlink_from none key t = t
unlink_from (some l) key t = record t {
  links = without key t.links;
  rows = decrement l.thumbnail t.rows;
  cleanups = t.cleanups ++ cleanups_of l.thumbnail t.rows;
}

-- `unlinkThumbnail`.
unfoldable pub unlink : Key → Tables → Tables
unlink key t = unlink_from (link_of key t.links) key t

-- `insertLinkRecord`.
unfoldable pub insert_link : Key → ℕ → Origin → Tables → Tables
insert_link key id origin t = record t {
  links = t.links ++ record { key = key; thumbnail = id; origin = origin } ∷ [];
  rows = increment id t.rows;
}

-- `updateLinkRecord`, for the thumbnail that was linked before.
unfoldable pub update_link : Key → ℕ → ℕ → Origin → Tables → Tables
update_link key old id origin t =
    if old == id then record t { links = redirect key id origin t.links } else record t {
      links = redirect key id origin t.links;
      rows = increment id (decrement old t.rows);
      cleanups = t.cleanups ++ cleanups_of old t.rows;
    }

abbrev pub row_of : Given → ℕ → Thumbnail
row_of new id = record {
  id = id;
  mrl = new.mrl;
  status = new.status;
  nb_attempts = 0;
  is_owned = new.is_owned;
  shared_counter = 0;
}

-- `insert`, which gives a new identifier, where the thumbnail has none.
unfoldable pub insert : Given → Tables → Tables
insert new t =
    if new.id == 0
    then record t { rows = t.rows ++ row_of new t.next_id ∷ []; next_id = t.next_id + 1 }
    else t

abbrev pub id_of : Given → Tables → ℕ
id_of new t = if new.id == 0 then t.next_id else new.id

-- `update` of a thumbnail that was read from the database.
unfoldable pub update_row : Thumbnail → Given → Tables → Tables
unfolding bytes_eq
update_row old new t =
    if bytes_eq old.mrl new.mrl
      && ((if new.is_owned then old.is_owned else not old.is_owned) && is_available old.status)
    then t
    else record t {
      rows =
          map
            (λ (r : Thumbnail).
              if r.id == old.id
              then record r {
                mrl = new.mrl;
                status = available;
                nb_attempts = 0;
                is_owned = new.is_owned;
              }
              else r)
            t.rows;
    }

-- `updateOrReplace`, for a thumbnail that the entity has.
unfoldable pub update_or_replace :
    (Thumbnail → Origin → Bool) → Key → Given → Link → Thumbnail → Tables → Tables
unfolding update_link insert update_row
update_or_replace should_update key new link old t =
    if not (new.id == 0) && old.id == new.id
    then t
    else if not (is_available old.status)
    then update_row old new t
    else if should_update old link.origin && new.id == 0
    then (if same_origin link.origin new.origin
        then update_row old new t
        else update_link key old.id old.id new.origin (update_row old new t))
    else update_link key old.id (id_of new t) new.origin (insert new t)

-- What is done for an entity that has a link, with the row that it reads.
unfoldable pub set_linked :
    (Thumbnail → Origin → Bool) → Key → Given → Link → Option Thumbnail → Tables → Tables
unfolding update_or_replace
set_linked should_update key new l none t = t
set_linked should_update key new l (some old) t = update_or_replace should_update key new l old t

unfoldable pub set_from : (Thumbnail → Origin → Bool) → Key → Given → Option Link → Tables → Tables
unfolding set_linked insert_link insert
set_from should_update key new none t = insert_link key (id_of new t) new.origin (insert new t)
set_from should_update key new (some l) t =
    set_linked should_update key new l (lookup_row l.thumbnail t.rows) t

-- `setThumbnail` of an entity that reads its thumbnail anew. A thumbnail that is given with an
-- identifier which is not in the table violates the foreign key.
unfoldable pub set_thumbnail : (Thumbnail → Origin → Bool) → Key → Given → Tables → Tables
unfolding set_from
set_thumbnail should_update key new t =
    if not (new.id == 0) && not (has_row new.id t.rows)
    then t
    else set_from should_update key new (link_of key t.links) t

-- As media and artists decide it: a thumbnail that is shared is not updated.
abbrev pub should_update_thumbnail : Thumbnail → Origin → Bool
should_update_thumbnail t origin = not (ltb 1 t.shared_counter)

-- The triggers on the deletion of a medium, an album or an artist; there are two sizes.
abbrev pub remove_entity : ℕ → ℕ → Tables → Tables
remove_entity entity entity_type t =
    unlink (record { entity = entity; entity_type = entity_type; size_type = 1 })
      (unlink (record { entity = entity; entity_type = entity_type; size_type = 0 }) t)

-- A change of the tables.
pub data Change : Type 0 where
  sets : Key → Given → Change
  unlinks : Key → Change
  deletes : ℕ → ℕ → Change

unfoldable pub apply_all : (Thumbnail → Origin → Bool) → List Change → Tables → Tables
apply_all should_update [] t = t
apply_all should_update (sets key new ∷ changes) t =
    apply_all should_update changes (set_thumbnail should_update key new t)
apply_all should_update (unlinks key ∷ changes) t = apply_all should_update changes (unlink key t)
apply_all should_update (deletes entity entity_type ∷ changes) t =
    apply_all should_update changes (remove_entity entity entity_type t)
