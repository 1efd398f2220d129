-- ===== src/Analyzer/Storage.antt =====
-- What src/metadata_services/MetadataParser.cpp writes of an audio file: its track, its artists and its album.
use medialibrary.Common.{
  ℕ, ◌+◌, ◌==◌, ltb, leb, if◌then◌else◌, Bool, ◌&&◌, ◌||◌, Option, none, some, List, [], ◌∷◌, ◌++◌,
  map, keep,
}
use medialibrary.Analyzer.Tables.{
  Album, Track, Library, various_artists, Item, Writes, is_empty, artist_of, update_album,
  main_artist, tracks_of,
}

-- `createAlbum`, or `createUnknownAlbum` for an artist.
abbrev pub create_album : Item → ℕ → Library → Library
create_album item artist lib =
    let owner = if is_empty item.album then artist else 0 in
    record lib {
      albums =
          lib.albums
          ++ record {
            id = lib.next_album;
            title = item.album;
            artist = owner;
            release_year = 0;
            nb_discs = 1;
          }
            ∷ [];
      next_album = lib.next_album + 1;
    }

-- `setReleaseYear`; the year of a new album is not known, which is not 0 then.
abbrev pub set_release_year : Bool → ℕ → Album → Album
set_release_year is_new year a =
    if is_new
    then record a { release_year = year }
    else if year == a.release_year || a.release_year == 0
    then a
    else record a { release_year = 0 }

abbrev pub set_nb_discs : Item → Album → Album
set_nb_discs item a =
    if (ltb 0 item.disc_total && ltb a.nb_discs item.disc_total)
      || (ltb 0 item.disc_number && ltb a.nb_discs item.disc_number)
    then record a {
      nb_discs = if ltb item.disc_total item.disc_number then item.disc_number else item.disc_total;
    }
    else a

-- An update of an album, or what a failed one leaves.
abbrev pub written : Bool → (Album → Album) → Album → Album
written succeeds f a = if succeeds then f a else a

-- `addMedia`, for each of some rows.
abbrev pub added : Writes → List (ℕ × ℕ) → List (ℕ × ℕ)
added writes rows = keep writes.adds_media rows

-- The artists of the album and of the track are linked to the medium.
abbrev pub link_artists : Writes → ℕ → ℕ → Option ℕ → List (ℕ × ℕ) → List (ℕ × ℕ)
link_artists writes media main artist relation =
    (relation ++ added writes ((media, main) ∷ []))
    ++ added writes
        (elim artist [ none ↦ [] | some id ↦ if main == id then [] else (media, id) ∷ [] ])

-- `setAlbumArtist`
abbrev pub set_album_artist : Writes → ℕ → ℕ → List Album → List Album
set_album_artist writes album artist =
    update_album album (written writes.sets_album_artist (λ a. record a { artist = artist }))

module _ (in_order : List Track → List Track) where
  -- The album goes to its first artist, and to various artists from the second one on.
  unfoldable pub link_album : Writes → Item → ℕ → ℕ → Library → Library
  link_album writes item album main lib =
      let current = artist_of album lib.albums in
      if current == 0
      then record lib { albums = set_album_artist writes album main lib.albums }
      else if main == current
      then lib
      else if various_artists == current
      then record lib {
        relation = lib.relation ++ added writes ((item.media, various_artists) ∷ []);
      }
      else record lib {
        albums = set_album_artist writes album various_artists lib.albums;
        relation =
            lib.relation
            ++ added writes (
                map (λ (t : Track). (t.media, various_artists))
                  (tracks_of in_order album lib.tracks));
      }

  -- `link`.
  unfoldable pub link : Writes → Item → ℕ → Option ℕ → Option ℕ → Library → Library
  unfolding link_album
  link writes item album album_artist artist lib =
      let main = main_artist album_artist artist in
      let linked =
        link_album writes item album main
          (record lib { relation = link_artists writes item.media main artist lib.relation }) in
      record linked {
        albums =
            update_album album (written writes.sets_nb_discs (set_nb_discs item)) linked.albums;
      }

-- The year that `gmtime` finds.
module _ (gmtime_year : ℕ → ℕ) where
  abbrev pub year_of : ℕ → ℕ
  year_of date =
      if leb 1900 date && ltb date 3000 then date else if date == 0 then 0 else gmtime_year date

  abbrev pub release : Option (Option ℕ) → Bool → Album → Album
  release none is_new a = a
  release (some none) is_new a = set_release_year is_new 0 a
  release (some (some date)) is_new a = set_release_year is_new (year_of date) a

  -- `handleTrack`, behind its insertion.
  unfoldable pub handle_track : Writes → Item → ℕ → ℕ → Bool → Library → Library
  handle_track writes item album artist is_new lib = record lib {
    tracks =
        map
          (λ (t : Track).
            if t.media == item.media
            then record t {
              album = album;
              artist = artist;
              track_number = item.track_number;
              disc_number = item.disc_number;
            }
            else t)
          lib.tracks;
    albums =
        update_album album (written writes.sets_release_year (release item.date is_new)) lib.albums;
  }
