-- ===== src/Analyzer/Tables.antt =====
-- The tables of artists, albums and album tracks, and what src/metadata_services/MetadataParser.cpp reads of an audio file.
use medialibrary.Common.{
  ℕ, ◌==◌, if◌then◌else◌, Bool, true, false, ◌&&◌, Option, none, some, List, [], ◌∷◌, map, keep,
  Bytes,
}

pub record Artist : Type 0 where
  pub id : ℕ
  pub name : Bytes

-- An album; its artist is 0 until it has one, and the title of an unknown album is empty.
pub record Album : Type 0 where
  pub id : ℕ
  pub title : Bytes
  pub artist : ℕ
  pub release_year : ℕ
  pub nb_discs : ℕ

-- A medium; its album and artist are 0 where it has none. The folders are those of its files.
pub record Track : Type 0 where
  pub media : ℕ
  pub album : ℕ
  pub artist : ℕ
  pub track_number : ℕ
  pub disc_number : ℕ
  pub folders : List ℕ
  pub is_present : Bool

-- The tables, with the numbers that they give next.
pub record Library : Type 0 where
  pub artists : List Artist
  pub next_artist : ℕ
  pub albums : List Album
  pub next_album : ℕ
  pub tracks : List Track
  pub relation : List (ℕ × ℕ)

abbrev pub unknown_artist : ℕ
unknown_artist = 1

abbrev pub various_artists : ℕ
various_artists = 2

-- What `toInt` makes of a text that is no number, or of none, is 0. A date is what `stoi` gives, and
-- `some none` where it throws. Negative numbers are left out.
pub record Item : Type 0 where
  pub media : ℕ
  pub folder : ℕ
  pub album_artist : Bytes
  pub artist : Bytes
  pub album : Bytes
  pub track_number : ℕ
  pub disc_total : ℕ
  pub disc_number : ℕ
  pub date : Option (Option ℕ)

-- The album of the task before, and its folder.
pub record Cache : Type 0 where
  pub previous_album : Option ℕ
  pub previous_folder : ℕ

abbrev pub no_cache : Cache
no_cache = record { previous_album = none; previous_folder = 0 }

-- What becomes of the insertion of the track: the violation of a foreign key or of a unique one throws. A
-- release date that cannot be set ends the transaction as a refusal does.
pub data Insertion : Type 0 where
  inserted refused misses_media is_repeated : Insertion

-- Which writes of the database succeed; a row of the relation is a medium and an artist. The results of
-- the last four are ignored.
pub record Writes : Type 0 where
  pub creates_artist : Bytes → Bool
  pub creates_album : Bool
  pub insertion : Insertion
  pub adds_media : ℕ × ℕ → Bool
  pub sets_album_artist : Bool
  pub sets_release_year : Bool
  pub sets_nb_discs : Bool

abbrev pub is_empty : Bytes → Bool
is_empty [] = true
is_empty (c ∷ cs) = false

abbrev pub is_none : Option ℕ → Bool
is_none none = true
is_none (some id) = false

abbrev pub id_or : ℕ → Option ℕ → ℕ
id_or other none = other
id_or other (some id) = id

abbrev pub lookup_album : ℕ → List Album → Option Album
lookup_album id [] = none
lookup_album id (a ∷ albums) = if a.id == id then some a else lookup_album id albums

abbrev pub artist_of : ℕ → List Album → ℕ
artist_of id albums = elim (lookup_album id albums) as (λ (o : Option Album). ℕ) [
  | none ↦ 0
  | some a ↦ a.artist
]

abbrev pub update_album : ℕ → (Album → Album) → List Album → List Album
update_album id f = map (λ (a : Album). if a.id == id then f a else a)

abbrev pub main_artist : Option ℕ → Option ℕ → ℕ
main_artist (some id) track_artist = id
main_artist none (some id) = id
main_artist none none = unknown_artist

-- In which order SQLite gives the tracks of an album.
module _ (in_order : List Track → List Track) where
  -- The tracks of an album that are present.
  abbrev pub tracks_of : ℕ → List Track → List Track
  tracks_of id tracks = in_order (keep (λ (t : Track). t.album == id && t.is_present) tracks)
