-- ===== src/Analyzer/Candidates.antt =====
-- Which album `findAlbum` of src/metadata_services/MetadataParser.cpp chooses.
use medialibrary.Common.{
  ℕ, ◌==◌, ltb, ◌≡◌, refl, sym, ap, ◌∙◌, if◌then◌else◌, Bool, true, false, not, ◌&&◌, ◌||◌, Option,
  none, some, List, [], ◌∷◌, keep, Bytes, All, arith, subst, Bool-cases, Option-cases, inl, inr,
}
use mathlib.Core.List.{Memᴰ}
use medialibrary.Analyzer.Tables.{Album, Track, Library, Item, Cache, id_or, tracks_of, no_cache}
use medialibrary.Analyzer.Search.{
  scan_tracks, has_other_folder, keeps_by_date, is_match, is_cached, find_album,
}

-- Whether a track is on a second disc or a later one.
abbrev pub has_second_disc : List Track → Bool
has_second_disc [] = false
has_second_disc (t ∷ ts) = ltb 1 t.disc_number || has_second_disc ts

-- Whether two neighbours of the list of artists that starts with `previous` differ, the unknown one
-- (0) left aside.
abbrev pub changes_artist : ℕ → List Track → Bool
changes_artist previous [] = false
changes_artist previous (t ∷ ts) =
    (not (previous == 0) && not (previous == t.artist)) || changes_artist t.artist ts

early_stop :
    (x h d p c a : Bool)
    → ◌≡◌ {A = Bool × Bool}
        (if (x || d) && (p || a) then (true, true) else (h || (x || d), c || (p || a)))
        ((x || h) || d, (p || c) || a)
early_stop x h d p c a = ground arith

-- That the loop stops as soon as it knows both does not show in its result.
pub scan_tracks_lem :
    (ts : List Track) (previous : ℕ) (discs artists : Bool)
    → scan_tracks ts previous discs artists
      ≡ (has_second_disc ts || discs, changes_artist previous ts || artists)
unfolding scan_tracks
scan_tracks_lem [] previous discs artists = refl
scan_tracks_lem (t ∷ ts) previous discs artists =
    let differs = not (previous == 0) && not (previous == t.artist) in
    rw (scan_tracks_lem ts t.artist (ltb 1 t.disc_number || discs) (differs || artists)) (
      early_stop (ltb 1 t.disc_number) (has_second_disc ts) discs differs
        (changes_artist t.artist ts) artists)

-- What an album has to fulfil for a file, beside its title.
abbrev is_agreed : Option ℕ → Album → Bool
is_agreed none a = true
is_agreed (some id) a = a.artist == id

abbrev is_of_year : Option (Option ℕ) → Album → Bool
is_of_year none a = false
is_of_year (some none) a = false
is_of_year (some (some year)) a = year == a.release_year

abbrev is_near : Item → ℕ → Album → List Track → Bool
is_near item artist a [] = true
is_near item artist a (t ∷ ts) =
    has_second_disc (t ∷ ts)
    || (not (has_other_folder item.folder t.folders)
        || (not (changes_artist artist (t ∷ ts)) && is_of_year item.date a))

keeps_by_date_lem :
    (date : Option (Option ℕ)) (differ : Bool) (a : Album)
    → keeps_by_date date differ a ≡ (not differ && is_of_year date a)
keeps_by_date_lem none differ a = ground arith
keeps_by_date_lem (some none) differ a = ground arith
keeps_by_date_lem (some (some year)) true a = refl
keeps_by_date_lem (some (some year)) false a = refl

module _ (in_order : List Track → List Track) where
  by_tracks :
      (item : Item) (artist : ℕ) (a : Album) (ts : List Track)
      → (elim ts as (λ (x : List Track). Bool) [
        | [] ↦ true
        | t ∷ ts ↦
            let (multi_disc, multiple_artists) = scan_tracks (t ∷ ts) artist false false in
            multi_disc
            || (not (has_other_folder item.folder t.folders)
                || keeps_by_date item.date multiple_artists a)
      ])
        ≡ is_near item artist a ts
  by_tracks item artist a [] = refl
  by_tracks item artist a (t ∷ ts) =
      rw
        (
          scan_tracks_lem (t ∷ ts) artist false false,
          keeps_by_date_lem item.date (changes_artist artist (t ∷ ts) || false) a,
        )
        (ground arith)

  is_match_lem :
      (lib : Library) (item : Item) (album_artist artist : Option ℕ) (a : Album)
      → is_match in_order lib item album_artist artist a ≡ (
          is_agreed album_artist a
          && ((ltb 1 item.disc_total || ltb 1 item.disc_number)
              || is_near item (id_or 0 artist) a (tracks_of in_order a.id lib.tracks)))
  unfolding is_match
  is_match_lem lib item album_artist artist a =
      let near = by_tracks item (id_or 0 artist) a (tracks_of in_order a.id lib.tracks) in
      elim (Option-cases album_artist) [
        | inl e ↦ rw (e, near) (ground arith)
        | inr e ↦ rw (e.1, near) (ground arith)
      ]

-- The choice of the identifier of an album that passes a test, or of none where none passes it.
abbrev pub Chooses : (Album → Bool) → List Album → Option ℕ → Type 0
Chooses p albums none = All (λ a. p a ≡ false) albums
Chooses p albums (some id) = (a : Album) × Memᴰ a albums × (a.id ≡ id) × (p a ≡ true)

abbrev first_id : List Album → Option ℕ
first_id [] = none
first_id (a ∷ others) = some a.id

Chooses-cons :
    (p : Album → Bool) (a : Album) (albums : List Album) (o : Option ℕ)
    → p a ≡ false
    → Chooses p albums o
    → Chooses p (a ∷ albums) o
Chooses-cons p a albums none e c = (e, c)
Chooses-cons p a albums (some id) e (b, m, i, q) = (b, Memᴰ.tail m, i, q)

keep-Chooses :
    (p q : Album → Bool) (albums : List Album)
    → ((a : Album) → p a ≡ q a)
    → Chooses q albums (first_id (keep p albums))
keep-Chooses p q [] same = tt
keep-Chooses p q (a ∷ albums) same = elim (Bool-cases (p a)) [
  | inl e ↦ rw e (a, Memᴰ.head refl, refl, sym (same a) ∙ e)
  | inr e ↦ rw e (
      Chooses-cons q a albums (first_id (keep p albums)) (sym (same a) ∙ e)
        (keep-Chooses p q albums same))
]

first_id_lem :
    (folder : ℕ) (albums : List Album)
    → (elim albums as (λ (x : List Album). Option ℕ × Cache) [
      | [] ↦ (none, no_cache)
      | a ∷ others ↦ (some a.id, record { previous_album = some a.id; previous_folder = folder })
    ]).0
      ≡ first_id albums
first_id_lem folder [] = refl
first_id_lem folder (a ∷ others) = refl

module _ (same_name : Bytes → Bytes → Bool) (in_order : List Track → List Track) where
  -- An album for a file: the same title, the same album artist where the file has one, and either a
  -- further disc or a neighbour of the file.
  abbrev pub is_candidate : Library → Item → Option ℕ → Option ℕ → Album → Bool
  is_candidate lib item album_artist artist a =
      same_name a.title item.album
      && (is_agreed album_artist a
          && ((ltb 1 item.disc_total || ltb 1 item.disc_number)
              || is_near item (id_or 0 artist) a (tracks_of in_order a.id lib.tracks)))

  uncached :
      (lib : Library) (item : Item) (album_artist artist : Option ℕ) (cache : Cache)
      → is_cached lib item cache ≡ none
      → (find_album same_name in_order lib item album_artist artist cache).0
        ≡ first_id (
            keep
              (λ a.
                same_name a.title item.album && is_match in_order lib item album_artist artist a)
              lib.albums)
  unfolding find_album
  uncached lib item album_artist artist cache e =
      rw (e, find_album)
        (first_id_lem item.folder (
          keep
            (λ a. same_name a.title item.album && is_match in_order lib item album_artist artist a)
            lib.albums))

  -- Where the album of the cache does not serve, `findAlbum` returns an album of the same title and
  -- album artist, which is near the file or has several discs, and none only if no album is so.
  pub find_album-candidates :
      (lib : Library) (item : Item) (album_artist artist : Option ℕ) (cache : Cache)
      → is_cached lib item cache ≡ none
      → Chooses
          (is_candidate lib item album_artist artist)
          lib.albums
          (find_album same_name in_order lib item album_artist artist cache).0
  find_album-candidates lib item album_artist artist cache e =
      let matching : Album → Bool =
        λ a. same_name a.title item.album && is_match in_order lib item album_artist artist a in
      subst (Chooses (is_candidate lib item album_artist artist) lib.albums)
        (sym (uncached lib item album_artist artist cache e))
        (keep-Chooses matching (is_candidate lib item album_artist artist) lib.albums (λ a.
          ap (λ m. same_name a.title item.album && m)
            (is_match_lem in_order lib item album_artist artist a)))
