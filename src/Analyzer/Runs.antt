-- ===== src/Analyzer/Runs.antt =====
-- The analysis of any sequence of audio files keeps the tables in order.
use medialibrary.Common.{
  subst, sym, if-either, All-imp, All-both, ℕ, ◌+◌, ◌==◌, ==-refl, ◌≡◌, refl, ◌∙◌, if◌then◌else◌,
  Bool, true, false, not, ◌&&◌, Option, none, some, List, [], ◌∷◌, ◌++◌, Bytes, All, All-append,
  arith, Bool-cases, inl, inr,
}
use medialibrary.Parser.Worker.{Status, fatal}
use medialibrary.Analyzer.Tables.{
  Album, Track, Library, Item, Cache, Insertion, inserted, refused, misses_media, is_repeated,
  Writes, is_empty, is_none, id_or, artist_of, main_artist,
}
use medialibrary.Analyzer.Search.{find_or_create_artist, choose_album}
use medialibrary.Analyzer.Storage.{create_album, handle_track, link}
use medialibrary.Analyzer.Whole.{LinksAll, whole_link_artists, whole_link, link-whole}
use medialibrary.Analyzer.{
  store_track, after_insertion, analyze_all, parse_audio_file, State, analyze,
}
use medialibrary.Analyzer.Linked.{IsLinked, is_absent, has_media}
use medialibrary.Analyzer.Stored.{
  IsPlaced, IsOwned, IsOwnedBut, IsBefore, IsInOrder, whole_link_album-rest, stored-IsInOrder,
}
use medialibrary.Analyzer.Sound.{
  IsSound, IsReal, IsAlbum, AreReal, absent-next, owned-album, artist_of-append, artist_of-absent,
  absent-append, find_or_create_artist-IsSound, choose_album-IsAlbum,
}

-- The query for the tracks of an album loses none.
abbrev pub LosesNone : (List Track → List Track) → Type 0
LosesNone order = (m : ℕ) (ts : List Track) → has_media m ts ≡ true → has_media m (order ts) ≡ true

main_artist-real :
    (album_artist artist : Option ℕ)
    → IsReal album_artist
    → IsReal artist
    → (main_artist album_artist artist == 0) ≡ false
main_artist-real (some id) artist r s = r
main_artist-real none (some id) r s = s
main_artist-real none none r s = refl

known-IsBefore :
    (next id : ℕ) (albums : List Album) (relation : List (ℕ × ℕ)) (t : Track)
    → (artist_of id albums == 0) ≡ false
    → IsLinked albums relation t
    → IsPlaced next t
    → IsBefore next id albums relation t
known-IsBefore next id albums relation t real l p = ground (arith, real, l, p)

new-IsBefore :
    (next : ℕ) (albums : List Album) (a : Album) (relation : List (ℕ × ℕ)) (t : Track)
    → a.id ≡ next
    → IsLinked albums relation t
    → IsPlaced next t
    → IsBefore (next + 1) next (albums ++ a ∷ []) relation t
new-IsBefore next albums a relation t e l p =
    let same : artist_of t.album (albums ++ a ∷ []) ≡ artist_of t.album albums =
      artist_of-append t.album albums a ∙ elim (Bool-cases (is_absent t.album albums)) [
        | inl z ↦
            let other : (a.id == t.album) ≡ false = ground (arith, e, p) in
            rw (z, other, artist_of-absent t.album albums z) refl
        | inr z ↦ rw z refl
      ] in
    rw same (ground (arith, l, p))

linked-IsSound :
    (order : List Track → List Track) (writes : Writes) (item : Item) (album : ℕ)
    (album_artist also : Option ℕ) (lib : Library)
    → All (λ a. (a.id == 0) ≡ false) lib.artists
    → (lib.next_artist == 0) ≡ false
    → (lib.next_album == 0) ≡ false
    → IsInOrder (whole_link order writes item album album_artist also lib)
    → IsSound (whole_link order writes item album album_artist also lib)
unfolding whole_link
linked-IsSound order writes item album album_artist also lib named artist_real album_real v =
    let main = main_artist album_artist also in
    let rest =
      whole_link_album-rest order item album main
        (record lib { relation = whole_link_artists item.media main also lib.relation }) in
    record {
      in_order = v;
      named = rw rest.2 named;
      next_artist_is_real = rw rest.3 artist_real;
      next_album_is_real = rw rest.1 album_real;
    }

module _ (order : List Track → List Track) (gmtime_year : ℕ → ℕ) where
  known-IsInOrder :
      (writes : Writes) (item : Item) (id artist : ℕ) (album_artist also : Option ℕ) (lib : Library)
      → LosesNone order
      → IsReal album_artist
      → IsReal also
      → is_absent id lib.albums ≡ false
      → IsSound lib
      → IsInOrder (
          whole_link order writes item id album_artist also
            (handle_track gmtime_year writes item id artist false lib))
  known-IsInOrder writes item id artist album_artist also lib kept r q there s =
      let owned = owned-album lib.next_album id lib.albums s.in_order.owned there in
      stored-IsInOrder order gmtime_year writes item id artist album_artist also false lib kept
        (ground (arith, owned)) (ground (arith, owned)) (main_artist-real album_artist also r q)
        there
        (All-imp (IsOwned lib.next_album) (IsOwnedBut lib.next_album id (artist_of id lib.albums))
          lib.albums (λ a o. ground (arith, o)) s.in_order.owned)
        (All-imp (λ t. IsLinked lib.albums lib.relation t × IsPlaced lib.next_album t)
          (IsBefore lib.next_album id lib.albums lib.relation) lib.tracks
          (λ t b.
            known-IsBefore lib.next_album id lib.albums lib.relation t (ground (arith, owned)) b.0
              b.1)
          (All-both (IsLinked lib.albums lib.relation) (IsPlaced lib.next_album) lib.tracks
            s.in_order.linked s.in_order.placed))

  new-IsInOrder :
      (writes : Writes) (item : Item) (artist : ℕ) (album_artist also : Option ℕ) (lib : Library)
      → LosesNone order
      → IsReal album_artist
      → IsReal also
      → IsSound lib
      → IsInOrder (
          whole_link order writes item lib.next_album album_artist also (
            handle_track gmtime_year writes item lib.next_album artist true
              (create_album item (main_artist album_artist also) lib)))
  new-IsInOrder writes item artist album_artist also lib kept r q s =
      let main = main_artist album_artist also in
      let created = create_album item main lib in
      let a : Album = record {
        id = lib.next_album;
        title = item.album;
        artist = if is_empty item.album then main else 0;
        release_year = 0;
        nb_discs = 1;
      } in
      let absent = absent-next lib.next_album lib.albums s.in_order.owned in
      let there : is_absent lib.next_album created.albums ≡ false =
        absent-append lib.next_album lib.albums a ∙ rw (==-refl lib.next_album, absent) refl in
      let own : artist_of lib.next_album created.albums ≡ a.artist =
        artist_of-append lib.next_album lib.albums a ∙ rw (==-refl lib.next_album, absent) refl in
      stored-IsInOrder order gmtime_year writes item lib.next_album artist album_artist also true
        created kept s.next_album_is_real (ground arith) (main_artist-real album_artist also r q)
        there
        (let But =
            IsOwnedBut created.next_album lib.next_album
              (artist_of lib.next_album created.albums) in
          All-append But lib.albums (a ∷ []) (ground (arith, own, s.next_album_is_real), tt)
            (All-imp (IsOwned lib.next_album) But lib.albums (λ b o. ground (arith, o))
              s.in_order.owned))
        (All-imp (λ t. IsLinked lib.albums lib.relation t × IsPlaced lib.next_album t)
          (IsBefore created.next_album lib.next_album created.albums lib.relation) lib.tracks
          (λ t b. new-IsBefore lib.next_album lib.albums a lib.relation t refl b.0 b.1)
          (All-both (IsLinked lib.albums lib.relation) (IsPlaced lib.next_album) lib.tracks
            s.in_order.linked s.in_order.placed))

  inserted-IsSound :
      (writes : Writes) (item : Item) (album_artist also found : Option ℕ) (lib : Library)
      → LosesNone order
      → IsReal album_artist
      → IsReal also
      → IsAlbum lib.albums found
      → IsSound lib
      → IsSound (
          whole_link order writes item (id_or lib.next_album found) album_artist also (
            handle_track gmtime_year writes item
              (id_or lib.next_album found)
              (id_or (main_artist album_artist also) also)
              (is_none found)
              (if is_none found
                then create_album item (main_artist album_artist also) lib
                else lib)))
  unfolding handle_track
  inserted-IsSound writes item album_artist also none lib kept r q f s =
      linked-IsSound order writes item lib.next_album album_artist also
        (handle_track gmtime_year writes item lib.next_album
          (id_or (main_artist album_artist also) also) true
          (create_album item (main_artist album_artist also) lib))
        s.named s.next_artist_is_real (ground arith)
        (new-IsInOrder writes item (id_or (main_artist album_artist also) also) album_artist also
          lib kept r q s)
  inserted-IsSound writes item album_artist also (some id) lib kept r q f s =
      linked-IsSound order writes item id album_artist also
        (handle_track gmtime_year writes item id (id_or (main_artist album_artist also) also) false
          lib)
        s.named s.next_artist_is_real s.next_album_is_real
        (known-IsInOrder writes item id (id_or (main_artist album_artist also) also) album_artist
          also lib kept r q f s)

outcome-IsSound :
    (i : Insertion) (old stored : Library)
    → IsSound old
    → IsSound stored
    → IsSound (after_insertion i old stored).0
outcome-IsSound inserted old stored o s = s
outcome-IsSound refused old stored o s = o
outcome-IsSound misses_media old stored o s = o
outcome-IsSound is_repeated old stored o s = o

module _ (same_name : Bytes → Bytes → Bool) (order : List Track → List Track)
    (gmtime_year : ℕ → ℕ) where
  store_track-IsSound :
      (writes : Writes) (item : Item) (album_artist also found : Option ℕ) (lib : Library)
      → LosesNone order
      → LinksAll writes
      → IsReal album_artist
      → IsReal also
      → IsAlbum lib.albums found
      → IsSound lib
      → IsSound (store_track same_name order gmtime_year writes item album_artist also found lib).0
  unfolding store_track
  store_track-IsSound writes item album_artist also found lib kept l r q f s =
      let handled =
        (handle_track gmtime_year writes item (id_or lib.next_album found)
          (id_or (main_artist album_artist also) also) (is_none found)
          (if is_none found then create_album item (main_artist album_artist also) lib else lib)) in
      let stored = link order writes item (id_or lib.next_album found) album_artist also handled in
      if-either (λ (x : Library × Status). IsSound x.0) (is_none found && not writes.creates_album)
        (lib, fatal) (after_insertion writes.insertion lib stored) s
        (outcome-IsSound writes.insertion lib stored s (
          subst IsSound
            (sym (
              link-whole order writes item (id_or lib.next_album found) album_artist also handled
                l))
            (inserted-IsSound order gmtime_year writes item album_artist also found lib kept r q f
              s)))

  parse_audio_file-IsSound :
      (writes : Writes) (item : Item) (cache : Cache) (lib : Library)
      → LosesNone order
      → LinksAll writes
      → IsSound lib
      → IsSound (parse_audio_file same_name order gmtime_year writes item cache lib).0
  unfolding parse_audio_file
  parse_audio_file-IsSound writes item cache lib kept l s =
      let found = find_or_create_artist-IsSound same_name writes.creates_artist item lib s in
      by_artists (find_or_create_artist same_name writes.creates_artist item lib).0
        (find_or_create_artist same_name writes.creates_artist item lib).1 found.0 found.1
    where
      by_artists :
          (known : Library) (x : Option (Option ℕ × Option ℕ))
          → IsSound known
          → AreReal x
          → IsSound
              (elim x as (λ y. Library × (Status × Cache)) [
                | none ↦ (known, (fatal, cache))
                | some (album_artist, artist) ↦
                    let (found, next_cache) =
                      choose_album same_name order known item album_artist artist cache in
                    let (stored, status) =
                      store_track same_name order gmtime_year writes item album_artist artist found
                        known in
                    (stored, (status, next_cache))
              ]).0
      by_artists known none v r = v
      by_artists known (some (album_artist, artist)) v r =
          store_track-IsSound writes item album_artist artist
            (choose_album same_name order known item album_artist artist cache).0 known kept l r.0
            r.1
            (choose_album-IsAlbum same_name order gmtime_year known item album_artist artist cache)
            v

  analyze-IsSound :
      (writes : Writes) (item : Item) (flushed : Bool) (s : State)
      → LosesNone order
      → LinksAll writes
      → IsSound s.library
      → IsSound (analyze same_name order gmtime_year writes item flushed s).0.library
  unfolding analyze
  analyze-IsSound writes item flushed s kept l v =
      parse_audio_file-IsSound writes item s.cache s.library kept l v

  -- If the tables are sound, the analysis of any sequence of files keeps them so: each track of an album
  -- is linked to the artist of the album, and each album has an artist. The tasks may be flushed at any
  -- time, and the creation of artists and albums, the insertion of the track and the updates of the year
  -- and the number of discs may fail. The writes that link a medium to an artist, and those that give an
  -- album its artist, succeed. The tracks are all present, and the query for the tracks of an album loses
  -- none.
  pub analyze_all-IsSound :
      (tasks : List (Writes × Item × Bool)) (s : State)
      → LosesNone order
      → All (λ t. LinksAll t.0) tasks
      → IsSound s.library
      → IsSound (analyze_all same_name order gmtime_year tasks s).library
  unfolding analyze_all
  analyze_all-IsSound [] s kept l v = v
  analyze_all-IsSound ((writes, item, flushed) ∷ tasks) s kept l v =
      analyze_all-IsSound tasks (analyze same_name order gmtime_year writes item flushed s).0 kept
        l.1 (analyze-IsSound writes item flushed s kept l.0 v)
