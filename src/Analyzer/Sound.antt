-- ===== src/Analyzer/Sound.antt =====
-- The analysis of any sequence of audio files keeps the tables in order.
use medialibrary.Common.{
  if-either, ℕ, ◌==◌, ltb, ◌≡◌, ◌⊎◌, refl, subst, ◌∙◌, if◌then◌else◌, Bool, true, false, not, ◌&&◌,
  ◌||◌, Option, none, some, List, [], ◌∷◌, ◌++◌, keep, Bytes, bytes_eq, All, All-append, arith,
  Bool-cases, Option-cases, inl, inr,
}
use medialibrary.Analyzer.Tables.{
  Artist, Album, Track, Library, Item, Cache, unknown_artist, is_empty, is_none, lookup_album,
  artist_of, main_artist,
}
use medialibrary.Analyzer.Search.{
  unknown_album, find_artist, or_create, find_or_create, find_or_create_artist, is_cached, is_match,
  find_album, choose_album,
}
use medialibrary.Analyzer.Linked.{is_absent}
use medialibrary.Analyzer.Stored.{IsOwned, IsInOrder}

-- The artists have identifiers other than 0, and so have those to come.
pub record IsSound (lib : Library) : Type 0 where
  pub in_order : IsInOrder lib
  pub named : All (λ a. (a.id == 0) ≡ false) lib.artists
  pub next_artist_is_real : (lib.next_artist == 0) ≡ false
  pub next_album_is_real : (lib.next_album == 0) ≡ false

abbrev pub IsReal : Option ℕ → Type 0
IsReal none = Unit
IsReal (some id) = (id == 0) ≡ false

abbrev pub IsAlbum : List Album → Option ℕ → Type 0
IsAlbum albums none = Unit
IsAlbum albums (some id) = is_absent id albums ≡ false

find_artist-IsReal :
    (same_name : Bytes → Bytes → Bool) (name : Bytes) (artists : List Artist)
    → All (λ a. (a.id == 0) ≡ false) artists
    → IsReal (find_artist same_name name artists)
find_artist-IsReal same_name name [] h = tt
find_artist-IsReal same_name name (a ∷ artists) h = elim (Bool-cases (same_name a.name name)) [
  | inl e ↦ rw e h.0
  | inr e ↦ rw e (find_artist-IsReal same_name name artists h.1)
]

or_create-IsSound :
    (o : Option ℕ) (creates : Bytes → Bool) (name : Bytes) (lib : Library)
    → IsReal o
    → IsSound lib
    → IsSound (or_create o creates name lib).0 × IsReal (or_create o creates name lib).1
or_create-IsSound (some id) creates name lib r s = (s, r)
or_create-IsSound none creates name lib r s = elim (Bool-cases (creates name)) [
  | inl c ↦ rw c (
    record {
      in_order = record {
        linked = s.in_order.linked;
        placed = s.in_order.placed;
        owned = s.in_order.owned;
      };
      named =
          All-append (λ a. (a.id == 0) ≡ false) lib.artists
            (record { id = lib.next_artist; name = name } ∷ []) (s.next_artist_is_real, tt) s.named;
      next_artist_is_real = ground arith;
      next_album_is_real = s.next_album_is_real;
    },
    s.next_artist_is_real,
  )
  | inr c ↦ rw c (s, tt)
]

find_or_create-IsSound :
    (same_name : Bytes → Bytes → Bool) (creates : Bytes → Bool) (name : Bytes) (lib : Library)
    → IsSound lib
    → IsSound (find_or_create same_name creates name lib).0
      × IsReal (find_or_create same_name creates name lib).1
find_or_create-IsSound same_name creates name lib s =
    or_create-IsSound (find_artist same_name name lib.artists) creates name lib
      (find_artist-IsReal same_name name lib.artists s.named) s

absent-lookup :
    (id : ℕ) (albums : List Album)
    → is_absent id albums ≡ (elim (lookup_album id albums) as (λ (o : Option Album). Bool) [
      | none ↦ true
      | some a ↦ false
    ])
absent-lookup id [] = refl
absent-lookup id (a ∷ albums) = ground (arith, absent-lookup id albums)

keep-IsAlbum :
    (p : Album → Bool) (albums : List Album) (a : Album) (others : List Album)
    → keep p albums ≡ a ∷ others
    → is_absent a.id albums ≡ false
keep-IsAlbum p [] a others e = cc
keep-IsAlbum p (b ∷ albums) a others e = elim (Bool-cases (p b)) [
  | inl q ↦ ground (arith, q, e)
  | inr q ↦ ground (arith, q, e, keep-IsAlbum p albums a others (rw q at e))
]

IsAlbum-cons :
    (a : Album) (albums : List Album) (o : Option ℕ) → IsAlbum albums o → IsAlbum (a ∷ albums) o
IsAlbum-cons a albums none h = tt
IsAlbum-cons a albums (some id) h = ground (arith, h)

unknown_album-IsAlbum :
    (artist : ℕ) (albums : List Album) → IsAlbum albums (unknown_album artist albums)
unknown_album-IsAlbum artist [] = tt
unknown_album-IsAlbum artist (a ∷ albums) =
    elim (Bool-cases (a.artist == artist && is_empty a.title)) [
      | inl e ↦ rw e (ground arith)
      | inr e ↦ rw e (
          IsAlbum-cons a albums (unknown_album artist albums) (unknown_album-IsAlbum artist albums))
    ]

pub absent-next :
    (next : ℕ) (albums : List Album) → All (IsOwned next) albums → is_absent next albums ≡ true
absent-next next [] o = refl
absent-next next (a ∷ albums) o = ground (arith, o.0, absent-next next albums o.1)

pub owned-album :
    (next id : ℕ) (albums : List Album)
    → All (IsOwned next) albums
    → is_absent id albums ≡ false
    → (ltb id next && (not (artist_of id albums == 0) && not (id == 0))) ≡ true
owned-album next id [] o h = cc
owned-album next id (a ∷ albums) o h = ground (arith, o.0, h, owned-album next id albums o.1)

pub artist_of-append :
    (j : ℕ) (albums : List Album) (a : Album)
    → artist_of j (albums ++ a ∷ [])
      ≡ (if is_absent j albums then (if a.id == j then a.artist else 0) else artist_of j albums)
artist_of-append j [] a = ground arith
artist_of-append j (b ∷ albums) a = ground (arith, artist_of-append j albums a)

pub artist_of-absent :
    (j : ℕ) (albums : List Album) → is_absent j albums ≡ true → artist_of j albums ≡ 0
artist_of-absent j [] h = refl
artist_of-absent j (a ∷ albums) h = ground (arith, h, artist_of-absent j albums)

pub absent-append :
    (j : ℕ) (albums : List Album) (a : Album)
    → is_absent j (albums ++ a ∷ []) ≡ (is_absent j albums && not (a.id == j))
absent-append j [] a = ground arith
absent-append j (b ∷ albums) a = ground (arith, absent-append j albums a)

List-cases : {A : Type 0} (xs : List A) → (xs ≡ []) ⊎ ((x : A) × (rest : List A) × (xs ≡ x ∷ rest))
List-cases [] = inl refl
List-cases (x ∷ xs) = inr (x, xs, refl)

abbrev pub AreReal : Option (Option ℕ × Option ℕ) → Type 0
AreReal none = Unit
AreReal (some (a, b)) = IsReal a × IsReal b

pub find_or_create_artist-IsSound :
    (same_name : Bytes → Bytes → Bool) (creates : Bytes → Bool) (item : Item) (lib : Library)
    → IsSound lib
    → IsSound (find_or_create_artist same_name creates item lib).0
      × AreReal (find_or_create_artist same_name creates item lib).1
unfolding find_or_create_artist
find_or_create_artist-IsSound same_name creates item lib s =
    let P = λ (r : Library × Option (Option ℕ × Option ℕ)). IsSound r.0 × AreReal r.1 in
    let Q = λ (r : Library × Option ℕ). IsSound r.0 × IsReal r.1 in
    let same = is_empty item.artist || not (not (bytes_eq item.album_artist item.artist)) in
    let r1 =
      if is_empty item.album_artist
      then (lib, none)
      else find_or_create same_name creates item.album_artist lib in
    let h1 : Q r1 =
      if-either Q (is_empty item.album_artist) (lib, none)
        (find_or_create same_name creates item.album_artist lib) (s, tt)
        (find_or_create-IsSound same_name creates item.album_artist lib s) in
    let r2 = if same then (r1.0, none) else find_or_create same_name creates item.artist r1.0 in
    let h2 : Q r2 =
      if-either Q same (r1.0, none) (find_or_create same_name creates item.artist r1.0) (h1.0, tt)
        (find_or_create-IsSound same_name creates item.artist r1.0 h1.0) in
    let album_fails = not (is_empty item.album_artist) && is_none r1.1 in
    let artist_fails =
      not (is_empty item.artist) && not (bytes_eq item.album_artist item.artist) && is_none r2.1 in
    let found : Library × Option (Option ℕ × Option ℕ) = (r2.0, some (r1.1, r2.1)) in
    let failed : Library × Option (Option ℕ × Option ℕ) = (r2.0, none) in
    let unchanged : Library × Option (Option ℕ × Option ℕ) = (lib, none) in
    let last = if artist_fails then failed else found in
    let last_P : P last = if-either P artist_fails failed found (h2.0, tt) (h2.0, (h1.1, h2.1)) in
    if-either P (is_empty item.album_artist && is_empty item.artist)
      (lib, some (some unknown_artist, some unknown_artist))
      (if album_fails then unchanged else last) (s, (refl, refl))
      (if-either P album_fails unchanged last (s, tt) last_P)

is_cached-IsAlbum :
    (lib : Library) (item : Item) (cache : Cache) → IsAlbum lib.albums (is_cached lib item cache)
unfolding is_cached
is_cached-IsAlbum lib item cache = elim (Option-cases cache.previous_album) [
  | inl e ↦ rw (e, is_cached) tt
  | inr (id, e) ↦ elim (Option-cases (lookup_album id lib.albums)) [
    | inl f ↦ rw (is_cached, e, f) tt
    | inr (a, f) ↦
        rw (is_cached, e, f)
          (if-either (IsAlbum lib.albums)
            (bytes_eq item.album a.title
              && (not (cache.previous_folder == 0) && cache.previous_folder == item.folder))
            (some id) none (absent-lookup id lib.albums ∙ rw f refl) tt)
  ]
]

module _ (same_name : Bytes → Bytes → Bool) (order : List Track → List Track)
    (gmtime_year : ℕ → ℕ) where
  find_album-IsAlbum :
      (lib : Library) (item : Item) (album_artist artist : Option ℕ) (cache : Cache)
      → IsAlbum lib.albums (find_album same_name order lib item album_artist artist cache).0
  unfolding find_album
  find_album-IsAlbum lib item album_artist artist cache =
      let candidates =
        keep
          (λ (a : Album).
            same_name a.title item.album && is_match order lib item album_artist artist a)
          lib.albums in
      elim (Option-cases (is_cached lib item cache)) [
        | inl e ↦ elim (List-cases candidates) [
          | inl f ↦ rw (e, f, find_album) tt
          | inr (a, others, f) ↦
              rw (e, f, find_album)
                (keep-IsAlbum
                  (λ (b : Album).
                    same_name b.title item.album && is_match order lib item album_artist artist b)
                  lib.albums a others f)
        ]
        | inr (id, e) ↦
            rw (e, find_album) (subst (IsAlbum lib.albums) e (is_cached-IsAlbum lib item cache))
      ]

  pub choose_album-IsAlbum :
      (lib : Library) (item : Item) (album_artist artist : Option ℕ) (cache : Cache)
      → IsAlbum lib.albums (choose_album same_name order lib item album_artist artist cache).0
  unfolding find_album
  choose_album-IsAlbum lib item album_artist artist cache =
      if-either (λ r. IsAlbum lib.albums r.0) (is_empty item.album)
        (unknown_album (main_artist album_artist artist) lib.albums, cache)
        (find_album same_name order lib item album_artist artist cache)
        (unknown_album-IsAlbum (main_artist album_artist artist) lib.albums)
        (find_album-IsAlbum lib item album_artist artist cache)
