-- ===== src/Analyzer/Linked.antt =====
-- Each track of an album is linked to the artist of the album.
use medialibrary.Common.{
  All-imp, All-both, ℕ, ◌==◌, ==-refl, ◌≡◌, refl, ap, subst, ◌∙◌, if◌then◌else◌, Bool, true, false,
  not, ◌&&◌, ◌||◌, List, [], ◌∷◌, ◌++◌, map, keep, All, arith, Bool-cases, inl, inr,
}
use medialibrary.Analyzer.Tables.{
  Album, Track, Library, Item, various_artists, artist_of, update_album, tracks_of,
}
use medialibrary.Analyzer.Whole.{whole_link_album}

abbrev pub is_related : ℕ → ℕ → List (ℕ × ℕ) → Bool
is_related media artist [] = false
is_related media artist ((m, a) ∷ relation) =
    (m == media && a == artist) || is_related media artist relation

-- A track without an album is linked as it may.
abbrev pub IsLinked : List Album → List (ℕ × ℕ) → Track → Type 0
IsLinked albums relation t =
    (t.album == 0 || is_related t.media (artist_of t.album albums) relation) ≡ true

abbrev pub is_absent : ℕ → List Album → Bool
is_absent id [] = true
is_absent id (a ∷ albums) = not (a.id == id) && is_absent id albums

pub related-append :
    (m a : ℕ) (r s : List (ℕ × ℕ))
    → is_related m a (r ++ s) ≡ (is_related m a r || is_related m a s)
related-append m a [] s = refl
related-append m a ((x, y) ∷ r) s = ground (arith, related-append m a r s)

-- A change that keeps the artist keeps the artists of all albums.
pub artist_of-same :
    (id j : ℕ) (f : Album → Album) (albums : List Album)
    → ((a : Album) → ((f a).id ≡ a.id) × ((f a).artist ≡ a.artist))
    → artist_of j (update_album id f albums) ≡ artist_of j albums
artist_of-same id j f [] h = refl
artist_of-same id j f (a ∷ albums) h = ground (arith, h a, artist_of-same id j f albums h)

pub artist_of-set :
    (id j x : ℕ) (albums : List Album)
    → artist_of j (update_album id (λ a. record a { artist = x }) albums)
      ≡ (if j == id && not (is_absent j albums) then x else artist_of j albums)
artist_of-set id j x [] = ground arith
artist_of-set id j x (a ∷ albums) = ground (arith, artist_of-set id j x albums)

abbrev pub has_media : ℕ → List Track → Bool
has_media m [] = false
has_media m (t ∷ ts) = t.media == m || has_media m ts

related-various :
    (m x : ℕ) (ts : List Track) → is_related m x (map (λ t. (t.media, x)) ts) ≡ has_media m ts
related-various m x [] = refl
related-various m x (t ∷ ts) = ground (arith, related-various m x ts)

has_media-keep :
    (p : Track → Bool) (ts : List Track)
    → All (λ t. (not (p t) || has_media t.media (keep p ts)) ≡ true) ts
has_media-keep p [] = tt
has_media-keep p (t ∷ ts) = (
  ground arith,
  All-imp (λ u. (not (p u) || has_media u.media (keep p ts)) ≡ true)
      (λ u. (not (p u) || has_media u.media (keep p (t ∷ ts))) ≡ true) ts (λ u h. ground (arith, h))
      (has_media-keep p ts),
)

-- What a track needs before its album is linked: those of the album have the new medium or are linked to
-- the album's artist.
abbrev pub IsReady : ℕ → ℕ → List Album → List (ℕ × ℕ) → Track → Type 0
IsReady m album albums relation t =
    ((if t.album == album
        then t.media == m
          || (not (artist_of album albums == 0)
              && is_related t.media (artist_of album albums) relation)
        else t.album == 0 || is_related t.media (artist_of t.album albums) relation)
      && t.is_present)
    ≡ true

first-IsLinked :
    (m album main : ℕ) (albums : List Album) (relation : List (ℕ × ℕ)) (t : Track)
    → is_absent album albums ≡ false
    → is_related m main relation ≡ true
    → (artist_of album albums == 0) ≡ true
    → IsReady m album albums relation t
    → IsLinked (update_album album (λ a. record a { artist = main }) albums) relation t
first-IsLinked m album main albums relation t there new z ready =
    elim (Bool-cases (t.album == album)) [
      | inl e ↦
          let same : t.album ≡ album = ground (arith, e) in
          let own : artist_of t.album (update_album album (λ a. record a { artist = main }) albums)
              ≡ main =
            ap (λ i. artist_of i (update_album album (λ a. record a { artist = main }) albums)) same
            ∙ artist_of-set album album main albums
            ∙ rw (==-refl album, there) refl in
          let by_media : t.media ≡ m = ground (arith, e, z, ready) in
          rw (own, by_media, new) (ground arith)
      | inr e ↦ rw (artist_of-set album t.album main albums, e) (ground (arith, ready, e))
    ]

same-IsLinked :
    (m album : ℕ) (albums : List Album) (relation longer : List (ℕ × ℕ)) (t : Track)
    → ((x a : ℕ) → is_related x a relation ≡ true → is_related x a longer ≡ true)
    → is_related m (artist_of album albums) longer ≡ true
    → IsReady m album albums relation t
    → IsLinked albums longer t
same-IsLinked m album albums relation longer t more new ready =
    elim (Bool-cases (t.album == album)) [
      | inl e ↦
          let same : t.album ≡ album = ground (arith, e) in
          rw same (elim (Bool-cases (t.media == m)) [
            | inl f ↦
                let by_media : t.media ≡ m = ground (arith, f) in rw (by_media, new) (ground arith)
            | inr f ↦
                rw (more t.media (artist_of album albums) (ground (arith, ready, e, f)))
                  (ground arith)
          ])
      | inr e ↦ elim (Bool-cases (t.album == 0)) [
        | inl z ↦ rw z refl
        | inr z ↦
            rw (more t.media (artist_of t.album albums) (ground (arith, ready, e, z)))
              (ground arith)
      ]
    ]

module _ (in_order : List Track → List Track) where
  switched :
      (item : Item) (album : ℕ) (albums : List Album) (relation : List (ℕ × ℕ))
      (tracks : List Track) (t : Track)
      → ((m : ℕ) (ts : List Track) → has_media m ts ≡ true → has_media m (in_order ts) ≡ true)
      → is_absent album albums ≡ false
      → IsReady item.media album albums relation t
      → (not (t.album == album && t.is_present)
          || has_media t.media (keep (λ u. u.album == album && u.is_present) tracks))
        ≡ true
      → IsLinked
          (update_album album (λ a. record a { artist = various_artists }) albums)
          (relation ++ map (λ u. (u.media, various_artists)) (tracks_of in_order album tracks))
          t
  switched item album albums relation tracks t kept there ready listed =
      elim (Bool-cases (t.album == album)) [
        | inl e ↦
            let same : t.album ≡ album = ground (arith, e) in
            let own : artist_of t.album
                  (update_album album (λ a. record a { artist = various_artists }) albums)
                ≡ various_artists =
              ap
                (λ i.
                  artist_of i
                    (update_album album (λ a. record a { artist = various_artists }) albums))
                same
              ∙ artist_of-set album album various_artists albums
              ∙ rw (==-refl album, there) refl in
            let found : has_media t.media (keep (λ u. u.album == album && u.is_present) tracks)
                ≡ true =
              ground (arith, e, ready, listed) in
            rw
              (
                own,
                related-append t.media various_artists relation
                    (map (λ u. (u.media, various_artists)) (tracks_of in_order album tracks)),
                related-various t.media various_artists (tracks_of in_order album tracks),
                kept t.media (keep (λ u. u.album == album && u.is_present) tracks) found,
              )
              (ground arith)
        | inr e ↦
            rw
              (
                artist_of-set album t.album various_artists albums,
                e,
                related-append t.media (artist_of t.album albums) relation
                    (map (λ u. (u.media, various_artists)) (tracks_of in_order album tracks)),
              )
              (ground (arith, ready, e))
      ]

  switch-IsLinked :
      (item : Item) (album : ℕ) (albums : List Album) (relation : List (ℕ × ℕ))
      (tracks : List Track)
      → ((m : ℕ) (ts : List Track) → has_media m ts ≡ true → has_media m (in_order ts) ≡ true)
      → is_absent album albums ≡ false
      → (album == 0) ≡ false
      → All (IsReady item.media album albums relation) tracks
      → All
          (IsLinked
            (update_album album (λ a. record a { artist = various_artists }) albums)
            (relation ++ map (λ t. (t.media, various_artists)) (tracks_of in_order album tracks)))
          tracks
  switch-IsLinked item album albums relation tracks kept there real ready =
      All-imp
        (λ t.
          IsReady item.media album albums relation t
          × ((not (t.album == album && t.is_present)
                || has_media t.media (keep (λ u. u.album == album && u.is_present) tracks))
              ≡ true))
        (IsLinked (update_album album (λ a. record a { artist = various_artists }) albums)
          (relation ++ map (λ u. (u.media, various_artists)) (tracks_of in_order album tracks)))
        tracks
        (λ t (ready_t, listed).
          switched item album albums relation tracks t kept there ready_t listed)
        (All-both (IsReady item.media album albums relation)
          (λ t.
            (not (t.album == album && t.is_present)
              || has_media t.media (keep (λ u. u.album == album && u.is_present) tracks))
            ≡ true)
          tracks ready (has_media-keep (λ u. u.album == album && u.is_present) tracks))

  pub whole_link_album-IsLinked :
      (item : Item) (album main : ℕ) (lib : Library)
      → ((m : ℕ) (ts : List Track) → has_media m ts ≡ true → has_media m (in_order ts) ≡ true)
      → is_absent album lib.albums ≡ false
      → (album == 0) ≡ false
      → is_related item.media main lib.relation ≡ true
      → All (IsReady item.media album lib.albums lib.relation) lib.tracks
      → All
          (IsLinked
            (whole_link_album in_order item album main lib).albums
            (whole_link_album in_order item album main lib).relation)
          lib.tracks
  unfolding whole_link_album
  whole_link_album-IsLinked item album main lib kept there real new ready =
      elim (Bool-cases (artist_of album lib.albums == 0)) [
        | inl z ↦ rw z (
            All-imp (IsReady item.media album lib.albums lib.relation)
              (IsLinked (update_album album (λ a. record a { artist = main }) lib.albums)
                lib.relation)
              lib.tracks
              (λ t h. first-IsLinked item.media album main lib.albums lib.relation t there new z h)
              ready)
        | inr z ↦ elim (Bool-cases (main == artist_of album lib.albums)) [
          | inl e ↦
              rw (z, e)
                (All-imp (IsReady item.media album lib.albums lib.relation)
                  (IsLinked lib.albums lib.relation) lib.tracks
                  (λ t h.
                    same-IsLinked item.media album lib.albums lib.relation lib.relation t
                      (λ x a r. r)
                      (let same : main ≡ artist_of album lib.albums = ground (arith, e) in
                        subst (λ i. is_related item.media i lib.relation ≡ true) same new)
                      h)
                  ready)
          | inr e ↦ elim (Bool-cases (various_artists == artist_of album lib.albums)) [
            | inl v ↦
                rw (z, e, v)
                  (All-imp (IsReady item.media album lib.albums lib.relation)
                    (IsLinked lib.albums (lib.relation ++ (item.media, various_artists) ∷ []))
                    lib.tracks
                    (λ t h.
                      same-IsLinked item.media album lib.albums lib.relation
                        (lib.relation ++ (item.media, various_artists) ∷ []) t
                        (λ x a r.
                          related-append x a lib.relation ((item.media, various_artists) ∷ [])
                          ∙ rw r refl)
                        (let same : various_artists ≡ artist_of album lib.albums =
                            ground (arith, v) in
                          subst
                            (λ i.
                              is_related item.media i
                                (lib.relation ++ (item.media, various_artists) ∷ [])
                              ≡ true)
                            same
                            (related-append item.media various_artists lib.relation
                                ((item.media, various_artists) ∷ [])
                              ∙ ground arith))
                        h)
                    ready)
            | inr v ↦
                rw (z, e, v)
                  (switch-IsLinked item album lib.albums lib.relation lib.tracks kept there real
                    ready)
          ]
        ]
      ]
