-- ===== src/Analyzer/Tests.antt =====
-- Two songs of one album by two artists, where names compare byte by byte.
use medialibrary.Common.{ℕ, ◌≡◌, refl, Bool, true, false, some, List, [], ◌∷◌, Bytes, bytes_eq}
use medialibrary.Analyzer.Tables.{Track, Library, Item, Writes, inserted, no_cache}
use medialibrary.Analyzer.Search.{find_album, is_cached}
use medialibrary.Analyzer.{State, analyze_all}
use medialibrary.Analyzer.Candidates.{Chooses, is_candidate, find_album-candidates}
use medialibrary.Analyzer.Sound.{IsSound}
use medialibrary.Analyzer.Whole.{LinksAll}
use medialibrary.Analyzer.Runs.{LosesNone, analyze_all-IsSound}

abbrev as_stored : List Track → List Track
as_stored tracks = tracks

abbrev leap_year : ℕ → ℕ
leap_year date = 1970

abbrev medium : ℕ → Track
medium id = record {
  media = id;
  album = 0;
  artist = 0;
  track_number = 0;
  disc_number = 0;
  folders = 7 ∷ [];
  is_present = true;
}

abbrev fresh : Library
fresh = record {
  artists = record { id = 1; name = [] } ∷ record { id = 2; name = [] } ∷ [];
  next_artist = 3;
  albums = [];
  next_album = 1;
  tracks = medium 11 ∷ medium 12 ∷ [];
  relation = [];
}

abbrev song : ℕ → Bytes → Item
song id name = record {
  media = id;
  folder = 7;
  album_artist = [];
  artist = name;
  album = 65 ∷ [];
  track_number = id;
  disc_total = 0;
  disc_number = 1;
  date = some (some 1999);
}

abbrev allowed : Writes
allowed = record {
  creates_artist = λ name. true;
  creates_album = true;
  insertion = inserted;
  adds_media = λ r. true;
  sets_album_artist = true;
  sets_release_year = true;
  sets_nb_discs = false;
}

allowed-LinksAll : LinksAll allowed
allowed-LinksAll = (λ r. refl, refl)

abbrev songs : List (Writes × Item × Bool)
songs = (allowed, song 11 (66 ∷ []), false) ∷ (allowed, song 12 (67 ∷ []), true) ∷ []

abbrev idle : State
idle = record { library = fresh; cache = no_cache }

abbrev done : State
done = analyze_all bytes_eq as_stored leap_year songs idle

-- The second artist makes it an album of various artists.
done_relation : done.library.relation ≡ (11, 3) ∷ (12, 4) ∷ (11, 2) ∷ (12, 2) ∷ []
unfolding analyze_all
done_relation = refl

-- Where a medium is not linked to its artist, the track stands in the album all the same.
unlinked :
    (analyze_all bytes_eq as_stored leap_year
      ((record allowed { adds_media = λ r. false }, song 11 (66 ∷ []), false) ∷ [])
      idle).library.relation
    ≡ []
unfolding analyze_all
unlinked = refl

fresh-IsSound : IsSound fresh
fresh-IsSound = record {
  in_order = record { linked = (refl, (refl, tt)); placed = (refl, (refl, tt)); owned = tt };
  named = (refl, (refl, tt));
  next_artist_is_real = refl;
  next_album_is_real = refl;
}

as_stored-LosesNone : LosesNone as_stored
as_stored-LosesNone m ts h = h

analyze_all-IsSound_example : IsSound done.library
analyze_all-IsSound_example =
    analyze_all-IsSound bytes_eq as_stored leap_year songs idle as_stored-LosesNone
      (allowed-LinksAll, (allowed-LinksAll, tt)) fresh-IsSound

abbrev third : Item
third = record (song 12 (67 ∷ [])) { album_artist = 66 ∷ [] }

find_album-candidates_example :
    Chooses
      (is_candidate bytes_eq as_stored done.library third (some 2) (some 4))
      done.library.albums
      (find_album bytes_eq as_stored done.library third (some 2) (some 4) no_cache).0
unfolding is_cached
find_album-candidates_example =
    find_album-candidates bytes_eq as_stored done.library third (some 2) (some 4) no_cache refl
