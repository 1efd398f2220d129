-- ===== src/Analyzer.antt =====
-- src/metadata_services/MetadataParser.cpp: how an audio file finds its artists and its album, and what
-- it is linked to, on the tables of the database. Album tracks are rows of the media.
pub mod Tables
pub mod Search
pub mod Storage
pub mod Candidates
pub mod Whole
pub mod Linked
pub mod Stored
pub mod Sound
pub mod Runs
mod Tests
use medialibrary.Common.{
  ℕ, zero, suc, ◌+◌, ◌-◌, ◌==◌, ltb, leb, if◌then◌else◌, Bool, true, false, not, ◌&&◌, ◌||◌, Option,
  none, some, List, [], ◌∷◌, ◌++◌, map, keep, Bytes, bytes_eq,
}
use medialibrary.Parser.Worker.{Status, success, fatal, completed}
use medialibrary.Analyzer.Tables.{
  Artist, Album, Track, Library, unknown_artist, various_artists, Item, Cache, no_cache, Insertion,
  Writes, is_empty, is_none, id_or, lookup_album, artist_of, update_album, main_artist, tracks_of,
  inserted, refused, misses_media, is_repeated,
}
use medialibrary.Analyzer.Search.{
  is_cached, scan_tracks, has_other_folder, keeps_by_date, unknown_album, or_create, find_artist,
  find_or_create, find_or_create_artist, is_match, find_album, choose_album,
}
use medialibrary.Analyzer.Storage.{
  create_album, set_release_year, set_nb_discs, link_artists, link_album, link, year_of, release,
  handle_track,
}

pub record State : Type 0 where
  pub library : Library
  pub cache : Cache

-- The transaction is rolled back where the track is not inserted.
abbrev after_insertion : Insertion → Library → Library → Library × Status
after_insertion inserted old stored = (stored, success)
after_insertion refused old stored = (old, fatal)
after_insertion misses_media old stored = (old, fatal)
after_insertion is_repeated old stored = (old, completed)

-- The album is moved out of the cache before, and the task's own cache is kept if it succeeds.
abbrev cache_after : Status → Bool → Cache → Cache → Cache
cache_after status true old new = no_cache
cache_after success false old new = new
cache_after status false old new = record old { previous_album = none }

module _ (same_name : Bytes → Bytes → Bool) (in_order : List Track → List Track)
    (gmtime_year : ℕ → ℕ) where
  -- The transaction of `parseAudioFile`, for the album that was found.
  unfoldable pub store_track :
      Writes → Item → Option ℕ → Option ℕ → Option ℕ → Library → Library × Status
  unfolding handle_track link
  store_track writes item album_artist artist found lib =
      let main = main_artist album_artist artist in
      let is_new = is_none found in
      let album = id_or lib.next_album found in
      let track_artist = id_or main artist in
      let created = if is_new then create_album item main lib else lib in
      if is_new && not writes.creates_album
      then (lib, fatal)
      else after_insertion writes.insertion lib (
          link in_order writes item album album_artist artist
            (handle_track gmtime_year writes item album track_artist is_new created))

  -- `parseAudioFile`.
  unfoldable pub parse_audio_file : Writes → Item → Cache → Library → Library × (Status × Cache)
  unfolding find_or_create_artist find_album store_track
  parse_audio_file writes item cache lib =
      let (known, artists) = find_or_create_artist same_name writes.creates_artist item lib in
      elim artists [
        | none ↦ (known, (fatal, cache))
        | some (album_artist, artist) ↦
            let (found, next_cache) =
              choose_album same_name in_order known item album_artist artist cache in
            let (stored, status) = store_track writes item album_artist artist found known in
            (stored, (status, next_cache))
      ]

  -- The part of `run` for audio files. The flag tells whether the tasks are flushed meanwhile.
  unfoldable pub analyze : Writes → Item → Bool → State → State × Status
  unfolding parse_audio_file
  analyze writes item flushed s =
      let (library, (status, cache)) = parse_audio_file writes item s.cache s.library in
      (record { library = library; cache = cache_after status flushed s.cache cache }, status)

  unfoldable pub analyze_all : List (Writes × Item × Bool) → State → State
  unfolding analyze
  analyze_all [] s = s
  analyze_all ((writes, item, flushed) ∷ tasks) s =
      analyze_all tasks (analyze writes item flushed s).0
