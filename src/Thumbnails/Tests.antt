-- ===== src/Thumbnails/Tests.antt =====
-- A medium whose thumbnail goes to its album, and then gets another one.
use medialibrary.Common.{some, ◌≡◌, refl, true, false, List, [], ◌∷◌}
use medialibrary.Thumbnails.{
  available, from_media, user_provided, Key, Tables, Given, Change, sets, deletes, apply_all,
  set_thumbnail, should_update_thumbnail, unlink,
}
use medialibrary.Thumbnails.Sharing.{IsCounted}
use medialibrary.Thumbnails.Runs.{apply_all-IsCounted}
use medialibrary.Thumbnails.Frame.{shown}
use medialibrary.Thumbnails.Own.{set_thumbnail-own}
use medialibrary.Thumbnails.Others.{set_thumbnail-shown}

abbrev medium : Key
medium = record { entity = 4; entity_type = 0; size_type = 0 }

abbrev album : Key
album = record { entity = 9; entity_type = 1; size_type = 0 }

abbrev none_yet : Tables
none_yet = record { rows = []; next_id = 1; links = []; cleanups = [] }

abbrev drawn : Given
drawn = record { id = 0; mrl = 65 ∷ []; status = available; is_owned = true; origin = from_media }

abbrev chosen : Given
chosen = record {
  id = 0;
  mrl = 66 ∷ [];
  status = available;
  is_owned = false;
  origin = user_provided;
}

abbrev changes : List Change
changes =
    sets medium drawn ∷ sets album (record drawn { id = 1 }) ∷ sets medium chosen ∷ deletes 9 1 ∷ []

-- The first thumbnail is deleted with the album, and its file is to be cleaned up.
changes_cleanups : (apply_all should_update_thumbnail changes none_yet).cleanups ≡ (65 ∷ []) ∷ []
unfolding apply_all unlink set_thumbnail
changes_cleanups = refl

none_yet-IsCounted : IsCounted none_yet
none_yet-IsCounted = record { counted = tt; resolved = λ i p. p; bounded = tt; is_real = refl }

apply_all-IsCounted_example : IsCounted (apply_all should_update_thumbnail changes none_yet)
apply_all-IsCounted_example =
    apply_all-IsCounted should_update_thumbnail changes none_yet none_yet-IsCounted

abbrev shared : Tables
shared =
    apply_all should_update_thumbnail
      (sets medium drawn ∷ sets album (record drawn { id = 1 }) ∷ []) none_yet

shared-IsCounted : IsCounted shared
shared-IsCounted =
    apply_all-IsCounted should_update_thumbnail
      (sets medium drawn ∷ sets album (record drawn { id = 1 }) ∷ []) none_yet none_yet-IsCounted

set_thumbnail-shown_example :
    shown album (set_thumbnail should_update_thumbnail medium chosen shared) ≡ shown album shared
unfolding apply_all set_thumbnail
set_thumbnail-shown_example =
    set_thumbnail-shown medium album chosen shared refl shared-IsCounted (refl, tt)

set_thumbnail-own_example :
    shown medium (set_thumbnail should_update_thumbnail medium chosen shared)
    ≡ some (chosen.mrl, available)
set_thumbnail-own_example =
    set_thumbnail-own should_update_thumbnail medium chosen shared refl refl shared-IsCounted
