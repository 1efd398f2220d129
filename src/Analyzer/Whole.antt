-- ===== src/Analyzer/Whole.antt =====
-- What is linked where the artists are linked to the media and the albums get their artists.
use medialibrary.Common.{
  ℕ, ◌==◌, ◌≡◌, refl, ap, ◌∙◌, if◌then◌else◌, true, Option, none, some, List, [], ◌∷◌, ◌++◌, map,
}
use medialibrary.Analyzer.Tables.{
  Track, Library, various_artists, Item, Writes, artist_of, update_album, main_artist, tracks_of,
}
use medialibrary.Analyzer.Storage.{written, set_nb_discs, added, link_artists, link_album, link}

abbrev pub whole_link_artists : ℕ → ℕ → Option ℕ → List (ℕ × ℕ) → List (ℕ × ℕ)
whole_link_artists media main artist relation =
    (relation ++ (media, main) ∷ [])
    ++ elim artist [ none ↦ [] | some id ↦ if main == id then [] else (media, id) ∷ [] ]

module _ (in_order : List Track → List Track) where
  unfoldable pub whole_link_album : Item → ℕ → ℕ → Library → Library
  whole_link_album item album main lib =
      let current = artist_of album lib.albums in
      if current == 0
      then record lib { albums = update_album album (λ a. record a { artist = main }) lib.albums }
      else if main == current
      then lib
      else if various_artists == current
      then record lib { relation = lib.relation ++ (item.media, various_artists) ∷ [] }
      else record lib {
        albums = update_album album (λ a. record a { artist = various_artists }) lib.albums;
        relation =
            lib.relation
            ++ map (λ (t : Track). (t.media, various_artists))
                (tracks_of in_order album lib.tracks);
      }

  unfoldable pub whole_link : Writes → Item → ℕ → Option ℕ → Option ℕ → Library → Library
  unfolding whole_link_album
  whole_link writes item album album_artist artist lib =
      let main = main_artist album_artist artist in
      let linked =
        whole_link_album item album main
          (record lib { relation = whole_link_artists item.media main artist lib.relation }) in
      record linked {
        albums =
            update_album album (written writes.sets_nb_discs (set_nb_discs item)) linked.albums;
      }

-- The writes of `link` that matter succeed.
abbrev pub LinksAll : Writes → Type 0
LinksAll writes = ((r : ℕ × ℕ) → writes.adds_media r ≡ true) × (writes.sets_album_artist ≡ true)

added-all : (writes : Writes) (rows : List (ℕ × ℕ)) → LinksAll writes → added writes rows ≡ rows
added-all writes [] h = refl
added-all writes (r ∷ rows) h = rw (h.0 r) (ap (◌∷◌ r) (added-all writes rows h))

link_artists-whole :
    (writes : Writes) (media main : ℕ) (artist : Option ℕ) (relation : List (ℕ × ℕ))
    → LinksAll writes
    → link_artists writes media main artist relation ≡ whole_link_artists media main artist relation
link_artists-whole writes media main artist relation h =
    ap
      (λ x.
        (relation ++ x)
        ++ added writes
            (elim artist [ none ↦ [] | some id ↦ if main == id then [] else (media, id) ∷ [] ]))
      (added-all writes ((media, main) ∷ []) h)
    ∙ ap (λ x. (relation ++ (media, main) ∷ []) ++ x) (added-all writes _ h)

link_album-whole :
    (in_order : List Track → List Track) (writes : Writes) (item : Item) (album main : ℕ)
    (lib : Library)
    → LinksAll writes
    → link_album in_order writes item album main lib ≡ whole_link_album in_order item album main lib
unfolding link_album whole_link_album
link_album-whole in_order writes item album main lib h =
    rw
      (
        h.1,
        added-all writes ((item.media, various_artists) ∷ []) h,
        added-all writes
            (map (λ (t : Track). (t.media, various_artists)) (tracks_of in_order album lib.tracks))
            h,
      )
      refl

pub link-whole :
    (in_order : List Track → List Track) (writes : Writes) (item : Item) (album : ℕ)
    (album_artist artist : Option ℕ) (lib : Library)
    → LinksAll writes
    → link in_order writes item album album_artist artist lib
      ≡ whole_link in_order writes item album album_artist artist lib
unfolding link whole_link
link-whole in_order writes item album album_artist artist lib h =
    let main = main_artist album_artist artist in
    let numbered : Library → Library = λ linked. record linked {
      albums = update_album album (written writes.sets_nb_discs (set_nb_discs item)) linked.albums;
    } in
    ap (λ r. numbered (link_album in_order writes item album main (record lib { relation = r })))
      (link_artists-whole writes item.media main artist lib.relation h)
    ∙ ap numbered (
        link_album-whole in_order writes item album main
          (record lib { relation = whole_link_artists item.media main artist lib.relation }) h)
