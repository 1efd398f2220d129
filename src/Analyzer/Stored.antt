-- ===== src/Analyzer/Stored.antt =====
-- The transaction that stores a track keeps the tables in order.
use medialibrary.Common.{
  All-imp, ℕ, ◌==◌, ltb, ◌≡◌, refl, sym, subst, ◌∙◌, if◌then◌else◌, Bool, true, false, not, ◌&&◌,
  ◌||◌, Option, none, some, List, [], ◌∷◌, ◌++◌, map, All, arith, Bool-cases, inl, inr,
}
use medialibrary.Analyzer.Tables.{
  Album, Track, Library, Item, Writes, various_artists, artist_of, update_album, main_artist,
}
use medialibrary.Analyzer.Storage.{release, handle_track, set_nb_discs, written}
use medialibrary.Analyzer.Whole.{whole_link_artists, whole_link_album, whole_link}
use medialibrary.Analyzer.Linked.{
  is_related, IsLinked, is_absent, IsReady, has_media, related-append, artist_of-same,
  whole_link_album-IsLinked,
}

-- The album of a track is one that was created, and the track is present.
abbrev pub IsPlaced : ℕ → Track → Type 0
IsPlaced next t = (ltb t.album next && t.is_present) ≡ true

-- An album has an artist.
abbrev pub IsOwned : ℕ → Album → Type 0
IsOwned next a = (ltb a.id next && (not (a.artist == 0) && not (a.id == 0))) ≡ true

abbrev pub IsOwnedBut : ℕ → ℕ → ℕ → Album → Type 0
IsOwnedBut next album current a =
    (ltb a.id next && (not (a.id == 0) && (not (a.artist == 0) || (a.id == album && current == 0))))
    ≡ true

-- A track before it is stored in an album.
abbrev pub IsBefore : ℕ → ℕ → List Album → List (ℕ × ℕ) → Track → Type 0
IsBefore next album albums relation t =
    ((t.album == 0 || is_related t.media (artist_of t.album albums) relation)
      && (not (t.album == album && artist_of album albums == 0)
          && (ltb t.album next && t.is_present)))
    ≡ true

pub All-map :
    {A B : Type 0} (P : B → Type 0) (f : A → B) (xs : List A)
    → All (λ x. P (f x)) xs
    → All P (map f xs)
All-map P f [] a = tt
All-map P f (x ∷ xs) a = (a.0, All-map P f xs a.1)

absent-update :
    (id j : ℕ) (f : Album → Album) (albums : List Album)
    → ((a : Album) → (f a).id ≡ a.id)
    → is_absent j (update_album id f albums) ≡ is_absent j albums
absent-update id j f [] h = refl
absent-update id j f (a ∷ albums) h = ground (arith, h a, absent-update id j f albums h)

related-whole_link_artists :
    (x a media main : ℕ) (artist : Option ℕ) (relation : List (ℕ × ℕ))
    → is_related x a relation ≡ true
    → is_related x a (whole_link_artists media main artist relation) ≡ true
related-whole_link_artists x a media main none relation r = ground (
  arith,
  r,
  related-append x a (relation ++ (media, main) ∷ []) [],
  related-append x a relation ((media, main) ∷ []),
)
related-whole_link_artists x a media main (some id) relation r =
    let longer = related-append x a relation ((media, main) ∷ []) in
    elim (Bool-cases (main == id)) [
      | inl e ↦ rw e (related-append x a (relation ++ (media, main) ∷ []) [] ∙ rw (longer, r) refl)
      | inr e ↦ rw e (
          related-append x a (relation ++ (media, main) ∷ []) ((media, id) ∷ [])
          ∙ rw (longer, r) refl)
    ]

main-related :
    (media main : ℕ) (artist : Option ℕ) (relation : List (ℕ × ℕ))
    → is_related media main (whole_link_artists media main artist relation) ≡ true
main-related media main artist relation =
    let more =
      λ (ids : List (ℕ × ℕ)). related-append media main (relation ++ (media, main) ∷ []) ids in
    let one : is_related media main (relation ++ (media, main) ∷ []) ≡ true =
      related-append media main relation ((media, main) ∷ []) ∙ ground arith in
    more (elim artist [ none ↦ [] | some id ↦ if main == id then [] else (media, id) ∷ [] ])
    ∙ rw one refl

release-same :
    (gmtime_year : ℕ → ℕ) (date : Option (Option ℕ)) (is_new : Bool) (a : Album)
    → ((release gmtime_year date is_new a).id ≡ a.id)
      × ((release gmtime_year date is_new a).artist ≡ a.artist)
release-same gmtime_year none is_new a = (refl, refl)
release-same gmtime_year (some none) is_new a = ground arith
release-same gmtime_year (some (some date)) is_new a = ground arith

set_nb_discs-same :
    (item : Item) (a : Album)
    → ((set_nb_discs item a).id ≡ a.id) × ((set_nb_discs item a).artist ≡ a.artist)
set_nb_discs-same item a = ground arith

written-same :
    (succeeds : Bool) (f : Album → Album)
    → ((a : Album) → ((f a).id ≡ a.id) × ((f a).artist ≡ a.artist))
    → (a : Album) → ((written succeeds f a).id ≡ a.id) × ((written succeeds f a).artist ≡ a.artist)
written-same true f h a = h a
written-same false f h a = (refl, refl)

handled-IsReady :
    (gmtime_year : ℕ → ℕ) (writes : Writes) (item : Item) (album artist main next : ℕ)
    (also : Option ℕ) (is_new : Bool) (albums : List Album) (relation : List (ℕ × ℕ)) (t : Track)
    → (album == 0) ≡ false
    → IsBefore next album albums relation t
    → IsReady item.media album
        (update_album album
          (written writes.sets_release_year (release gmtime_year item.date is_new))
          albums)
        (whole_link_artists item.media main also relation)
        (if t.media == item.media
          then record t {
            album = album;
            artist = artist;
            track_number = item.track_number;
            disc_number = item.disc_number;
          }
          else t)
handled-IsReady gmtime_year writes item album artist main next also is_new albums relation t real
      b =
    let f = written writes.sets_release_year (release gmtime_year item.date is_new) in
    let here = artist_of-same album album f albums (
      written-same writes.sets_release_year (release gmtime_year item.date is_new)
        (release-same gmtime_year item.date is_new)) in
    let there = artist_of-same album t.album f albums (
      written-same writes.sets_release_year (release gmtime_year item.date is_new)
        (release-same gmtime_year item.date is_new)) in
    elim (Bool-cases (t.media == item.media)) [
      | inl m ↦ rw m (ground (arith, b, m))
      | inr m ↦
          rw (m, here, there)
            (elim (Bool-cases (t.album == 0)) [
              | inl z ↦ ground (arith, b, z, real, m)
              | inr z ↦
                  let kept =
                    related-whole_link_artists t.media (artist_of t.album albums) item.media main
                      also relation (ground (arith, b, z)) in
                  elim (Bool-cases (t.album == album)) [
                    | inl e ↦
                        let same : t.album ≡ album = ground (arith, e) in
                        let own : is_related t.media (artist_of album albums)
                              (whole_link_artists item.media main also relation)
                            ≡ true =
                          subst
                            (λ i.
                              is_related t.media (artist_of i albums)
                                (whole_link_artists item.media main also relation)
                              ≡ true)
                            same kept in
                        ground (arith, b, e, own)
                    | inr e ↦ ground (arith, b, e, kept)
                  ]
            ])
    ]

pub whole_link_album-rest :
    (in_order : List Track → List Track) (item : Item) (album main : ℕ) (lib : Library)
    → ((whole_link_album in_order item album main lib).tracks ≡ lib.tracks)
      × ((whole_link_album in_order item album main lib).next_album ≡ lib.next_album)
      × ((whole_link_album in_order item album main lib).artists ≡ lib.artists)
      × ((whole_link_album in_order item album main lib).next_artist ≡ lib.next_artist)
unfolding whole_link_album
whole_link_album-rest in_order item album main lib = ground arith

whole_link_album-IsOwned :
    (in_order : List Track → List Track) (item : Item) (album main next : ℕ) (lib : Library)
    → (main == 0) ≡ false
    → All (IsOwnedBut next album (artist_of album lib.albums)) lib.albums
    → All (IsOwned next) (whole_link_album in_order item album main lib).albums
unfolding whole_link_album
whole_link_album-IsOwned in_order item album main next lib real o =
    let but = IsOwnedBut next album (artist_of album lib.albums) in
    elim (Bool-cases (artist_of album lib.albums == 0)) [
      | inl z ↦ rw z (
          All-map (IsOwned next) (λ a. if a.id == album then record a { artist = main } else a)
            lib.albums
            (All-imp but
              (λ a. IsOwned next (if a.id == album then record a { artist = main } else a))
              lib.albums (λ a h. ground (arith, h, real)) o))
      | inr z ↦
          let owned : All (IsOwned next) lib.albums =
            All-imp but (IsOwned next) lib.albums (λ a h. ground (arith, h, z)) o in
          elim (Bool-cases (main == artist_of album lib.albums)) [
            | inl e ↦ rw (z, e) owned
            | inr e ↦ elim (Bool-cases (various_artists == artist_of album lib.albums)) [
              | inl v ↦ rw (z, e, v) owned
              | inr v ↦
                  rw (z, e, v)
                    (All-map (IsOwned next)
                      (λ a. if a.id == album then record a { artist = various_artists } else a)
                      lib.albums
                      (All-imp (IsOwned next)
                        (λ a.
                          IsOwned next
                            (if a.id == album then record a { artist = various_artists } else a))
                        lib.albums (λ a h. ground (arith, h)) owned))
            ]
          ]
    ]

-- The parts of the tables that a stored track leaves in order.
pub record IsInOrder (lib : Library) : Type 0 where
  pub linked : All (IsLinked lib.albums lib.relation) lib.tracks
  pub placed : All (IsPlaced lib.next_album) lib.tracks
  pub owned : All (IsOwned lib.next_album) lib.albums

pub stored-IsInOrder :
    (in_order : List Track → List Track) (gmtime_year : ℕ → ℕ) (writes : Writes) (item : Item)
    (album artist : ℕ) (album_artist also : Option ℕ) (is_new : Bool) (lib : Library)
    → ((m : ℕ) (ts : List Track) → has_media m ts ≡ true → has_media m (in_order ts) ≡ true)
    → (album == 0) ≡ false
    → ltb album lib.next_album ≡ true
    → (main_artist album_artist also == 0) ≡ false
    → is_absent album lib.albums ≡ false
    → All (IsOwnedBut lib.next_album album (artist_of album lib.albums)) lib.albums
    → All (IsBefore lib.next_album album lib.albums lib.relation) lib.tracks
    → IsInOrder (
        whole_link in_order writes item album album_artist also
          (handle_track gmtime_year writes item album artist is_new lib))
unfolding whole_link handle_track
stored-IsInOrder in_order gmtime_year writes item album artist album_artist also is_new lib kept
      real below real_artist there owned before =
    let main = main_artist album_artist also in
    let f = written writes.sets_release_year (release gmtime_year item.date is_new) in
    let same =
      written-same writes.sets_release_year (release gmtime_year item.date is_new)
        (release-same gmtime_year item.date is_new) in
    let upd = λ (t : Track).
      if t.media == item.media
      then record t {
        album = album;
        artist = artist;
        track_number = item.track_number;
        disc_number = item.disc_number;
      }
      else t in
    let start = record (handle_track gmtime_year writes item album artist is_new lib) {
      relation = whole_link_artists item.media main also lib.relation;
    } in
    let linked_lib = whole_link_album in_order item album main start in
    let rest = whole_link_album-rest in_order item album main start in
    let ready : All (IsReady item.media album start.albums start.relation) start.tracks =
      All-map (IsReady item.media album start.albums start.relation) upd lib.tracks (
        All-imp (IsBefore lib.next_album album lib.albums lib.relation)
          (λ t. IsReady item.media album start.albums start.relation (upd t)) lib.tracks
          (λ t b.
            handled-IsReady gmtime_year writes item album artist main lib.next_album also is_new
              lib.albums lib.relation t real b)
          before) in
    let linked =
      whole_link_album-IsLinked in_order item album main start kept
        (absent-update album album f lib.albums (λ a. (same a).0) ∙ there) real
        (main-related item.media main also lib.relation) ready in
    let numbered = λ (a : Album).
      if a.id == album then written writes.sets_nb_discs (set_nb_discs item) a else a in
    let but : All (IsOwnedBut lib.next_album album (artist_of album start.albums)) start.albums =
      All-map (IsOwnedBut lib.next_album album (artist_of album start.albums))
        (λ a. if a.id == album then f a else a) lib.albums
        (All-imp (IsOwnedBut lib.next_album album (artist_of album lib.albums))
          (λ a.
            IsOwnedBut lib.next_album album (artist_of album start.albums)
              (if a.id == album then f a else a))
          lib.albums
          (λ a o. ground (arith, o, same a, artist_of-same album album f lib.albums same)) owned) in
    record {
      linked =
          subst
            (All (
              IsLinked
                (update_album album (written writes.sets_nb_discs (set_nb_discs item))
                  linked_lib.albums)
                linked_lib.relation))
            (sym rest.0)
            (All-imp (IsLinked linked_lib.albums linked_lib.relation)
              (IsLinked
                (update_album album (written writes.sets_nb_discs (set_nb_discs item))
                  linked_lib.albums)
                linked_lib.relation)
              start.tracks
              (λ t h.
                rw
                  (artist_of-same album t.album (written writes.sets_nb_discs (set_nb_discs item))
                    linked_lib.albums
                    (written-same writes.sets_nb_discs (set_nb_discs item)
                      (set_nb_discs-same item)))
                  h)
              linked);
      placed =
          rw (rest.0, rest.1)
            (All-map (IsPlaced lib.next_album) upd lib.tracks (
              All-imp (IsBefore lib.next_album album lib.albums lib.relation)
                (λ t. IsPlaced lib.next_album (upd t)) lib.tracks (λ t b. ground (arith, b, below))
                before));
      owned = rw rest.1 (
          All-map (IsOwned lib.next_album) numbered linked_lib.albums (
            All-imp (IsOwned lib.next_album) (λ a. IsOwned lib.next_album (numbered a))
              linked_lib.albums
              (λ a o. ground (
                arith,
                o,
                written-same writes.sets_nb_discs (set_nb_discs item) (set_nb_discs-same item) a,
              ))
              (whole_link_album-IsOwned in_order item album main lib.next_album start real_artist
                but)));
    }
