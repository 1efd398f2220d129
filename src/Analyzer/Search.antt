-- ===== src/Analyzer/Search.antt =====
-- How src/metadata_services/MetadataParser.cpp finds the artists and the album of an audio file.
use medialibrary.Common.{
  ℕ, ◌+◌, ◌==◌, ltb, if◌then◌else◌, Bool, true, false, not, ◌&&◌, ◌||◌, Option, none, some, List,
  [], ◌∷◌, ◌++◌, keep, Bytes, bytes_eq,
}
use medialibrary.Analyzer.Tables.{
  Artist, Album, Track, Library, unknown_artist, Item, Cache, no_cache, is_empty, is_none, id_or,
  lookup_album, main_artist, tracks_of,
}

-- The title of the cached album is compared byte by byte.
unfoldable pub is_cached : Library → Item → Cache → Option ℕ
unfolding bytes_eq
is_cached lib item cache = elim cache.previous_album [
  | none ↦ none
  | some id ↦ elim (lookup_album id lib.albums) [
    | none ↦ none
    | some a ↦
        if bytes_eq item.album a.title
          && (not (cache.previous_folder == 0) && cache.previous_folder == item.folder)
        then some id
        else none
  ]
]

-- The loop over the tracks of a candidate: whether there are several discs and several artists. It
-- stops when both are known.
unfoldable pub scan_tracks : List Track → ℕ → Bool → Bool → Bool × Bool
scan_tracks [] previous multi_disc multiple_artists = (multi_disc, multiple_artists)
scan_tracks (t ∷ ts) previous multi_disc multiple_artists =
    let discs = ltb 1 t.disc_number || multi_disc in
    let artists = (not (previous == 0) && not (previous == t.artist)) || multiple_artists in
    let rest = scan_tracks ts t.artist discs artists in
    if discs && artists then (true, true) else rest

abbrev pub has_other_folder : ℕ → List ℕ → Bool
has_other_folder folder [] = false
has_other_folder folder (f ∷ fs) = not (f == folder) || has_other_folder folder fs

-- What is done with a candidate in another folder.
abbrev pub keeps_by_date : Option (Option ℕ) → Bool → Album → Bool
keeps_by_date (some (some year)) false a = year == a.release_year
keeps_by_date date multiple_artists a = false

-- `handleUnknownAlbum`.
abbrev pub unknown_album : ℕ → List Album → Option ℕ
unknown_album artist [] = none
unknown_album artist (a ∷ albums) =
    if a.artist == artist && is_empty a.title then some a.id else unknown_album artist albums

-- An artist is created where none is found.
abbrev pub or_create : Option ℕ → (Bytes → Bool) → Bytes → Library → Library × Option ℕ
or_create (some id) creates name lib = (lib, some id)
or_create none creates name lib =
    if creates name
    then (
      record lib {
        artists = lib.artists ++ record { id = lib.next_artist; name = name } ∷ [];
        next_artist = lib.next_artist + 1;
      },
      some lib.next_artist,
    )
    else (lib, none)

-- How SQLite compares the names.
module _ (same_name : Bytes → Bytes → Bool) where
  abbrev pub find_artist : Bytes → List Artist → Option ℕ
  find_artist name [] = none
  find_artist name (a ∷ artists) =
      if same_name a.name name then some a.id else find_artist name artists

  abbrev pub find_or_create : (Bytes → Bool) → Bytes → Library → Library × Option ℕ
  find_or_create creates name lib = or_create (find_artist name lib.artists) creates name lib

  -- `findOrCreateArtist`: the artist of the album and that of the track; `none` where one cannot be
  -- created.
  unfoldable pub find_or_create_artist :
      (Bytes → Bool) → Item → Library → Library × Option (Option ℕ × Option ℕ)
  unfolding bytes_eq
  find_or_create_artist creates item lib =
      if is_empty item.album_artist && is_empty item.artist
      then (lib, some (some unknown_artist, some unknown_artist))
      else let is_different = not (bytes_eq item.album_artist item.artist) in
        let (lib1, found) =
          if is_empty item.album_artist
          then (lib, none)
          else find_or_create creates item.album_artist lib in
        let (lib2, other) =
          if is_empty item.artist || not is_different
          then (lib1, none)
          else find_or_create creates item.artist lib1 in
        let album_fails = not (is_empty item.album_artist) && is_none found in
        let artist_fails = not (is_empty item.artist) && is_different && is_none other in
        if album_fails
        then (lib, none)
        else if artist_fails
        then (lib2, none)
        else (lib2, some (found, other))

module _ (in_order : List Track → List Track) where
  -- The test of one candidate.
  unfoldable pub is_match : Library → Item → Option ℕ → Option ℕ → Album → Bool
  unfolding scan_tracks
  is_match lib item album_artist track_artist a =
      if elim album_artist [ none ↦ false | some id ↦ not (a.artist == id) ]
      then false
      else if ltb 1 item.disc_total || ltb 1 item.disc_number
      then true
      else elim (tracks_of in_order a.id lib.tracks) [
        | [] ↦ true
        | t ∷ ts ↦
            let (multi_disc, multiple_artists) =
              scan_tracks (t ∷ ts) (id_or 0 track_artist) false false in
            multi_disc
            || (not (has_other_folder item.folder t.folders)
                || keeps_by_date item.date multiple_artists a)
      ]

module _ (same_name : Bytes → Bytes → Bool) (in_order : List Track → List Track) where
  -- `findAlbum`.
  unfoldable pub find_album : Library → Item → Option ℕ → Option ℕ → Cache → Option ℕ × Cache
  unfolding is_match is_cached
  find_album lib item album_artist track_artist cache = elim (is_cached lib item cache) [
    | some id ↦ (some id, cache)
    | none ↦
        elim (keep
          (λ (a : Album).
            same_name a.title item.album && is_match in_order lib item album_artist track_artist a)
          lib.albums) [
            | [] ↦ (none, no_cache)
            | a ∷ others ↦
                (some a.id, record { previous_album = some a.id; previous_folder = item.folder })
          ]
  ]

  abbrev pub choose_album : Library → Item → Option ℕ → Option ℕ → Cache → Option ℕ × Cache
  choose_album lib item album_artist artist cache =
      if is_empty item.album
      then (unknown_album (main_artist album_artist artist) lib.albums, cache)
      else find_album lib item album_artist artist cache
