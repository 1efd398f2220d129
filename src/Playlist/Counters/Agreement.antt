-- ===== src/Playlist/Counters/Agreement.antt =====
-- Playlists: the counters of a playlist are those of its media.
use medialibrary.Common.{
  ℕ, zero, suc, ◌+◌, ◌≤◌, ◌==◌, ◌≡◌, ◌≢◌, ◌↔◌, refl, sym, ap, ◌∙◌, true, false, Option, none, some,
  List, [], ◌∷◌, ◌++◌, length, take, drop, All, arith, Option-cases, inl, inr, take-append-drop,
}
use medialibrary.Playlist.{uint32_max, add_internal, remove_internal}
use medialibrary.Playlist.Positions.{Represents}
use medialibrary.Playlist.Ranges.{insert_all, remove_range, remove_range_none, drop-drop}
use medialibrary.Playlist.Moves.{target, add_internal-Represents, remove_internal-Represents}
use medialibrary.Playlist.Counters.{
  Media, Counters, no_counters, update, accumulate, plus, minus, Playlist, cache_added, add,
  accumulate_items, remove,
}

-- The counters of the media of a list, as far as they are found.
unfoldable pub found : (ℕ → Option Media) → List ℕ → List Media
found media [] = []
found media (id ∷ ids) = elim (media id) [ none ↦ found media ids | some m ↦ m ∷ found media ids ]

unfoldable pub tally : List Media → Counters
tally [] = no_counters
tally (m ∷ ms) = update m (tally ms)

abbrev pub IsFound : (ℕ → Option Media) → ℕ → Type 0
IsFound media id = media id ≢ none

update-plus : (m : Media) (a b : Counters) → plus (update m a) b ≡ update m (plus a b)
unfolding update
update-plus m a b = ground arith

update_comm : (m : Media) (a b : Counters) → plus a (update m b) ≡ update m (plus a b)
unfolding update
update_comm m a b = ground arith

plus-none : (c : Counters) → plus c no_counters ≡ c
plus-none c = ground arith

accumulate_items-tally :
    (ms : List Media) (c : Counters) → accumulate_items ms c ≡ plus c (tally ms)
unfolding accumulate_items tally
accumulate_items-tally [] c = sym (plus-none c)
accumulate_items-tally (m ∷ ms) c =
    accumulate_items-tally ms (update m c)
    ∙ update-plus m c (tally ms)
    ∙ sym (update_comm m c (tally ms))

accumulate-found :
    (media : ℕ → Option Media) (ids : List ℕ) (c : Counters)
    → All (IsFound media) ids
    → accumulate media ids c ≡ some (accumulate_items (found media ids) c)
unfolding accumulate accumulate_items found
accumulate-found media [] c a = refl
accumulate-found media (id ∷ ids) c a = elim (Option-cases (media id)) [
  | inl e ↦ absurd (a.0 e)
  | inr (m, e) ↦ rw (e, accumulate, found) (accumulate-found media ids (update m c) a.1)
]

tally-append : (xs ys : List Media) → tally (xs ++ ys) ≡ plus (tally xs) (tally ys)
unfolding tally
tally-append [] ys = ground arith
tally-append (m ∷ xs) ys =
    ap (update m) (tally-append xs ys) ∙ sym (update-plus m (tally xs) (tally ys))

found-append :
    (media : ℕ → Option Media) (xs ys : List ℕ)
    → found media (xs ++ ys) ≡ found media xs ++ found media ys
unfolding found
found-append media [] ys = refl
found-append media (x ∷ xs) ys = ground (arith, found-append media xs ys)

abbrev pub tally_of : (ℕ → Option Media) → List ℕ → Counters
tally_of media ids = tally (found media ids)

tally_of-append :
    (media : ℕ → Option Media) (xs ys : List ℕ)
    → tally_of media (xs ++ ys) ≡ plus (tally_of media xs) (tally_of media ys)
tally_of-append media xs ys =
    ap tally (found-append media xs ys) ∙ tally-append (found media xs) (found media ys)

pub tally_of-insert_all :
    (media : ℕ → Option Media) (p : ℕ) (ids xs : List ℕ)
    → tally_of media (insert_all p ids xs) ≡ plus (tally_of media xs) (tally_of media ids)
tally_of-insert_all media p ids xs = ground (
  arith,
  tally_of-append media (take p xs) (ids ++ drop p xs),
  tally_of-append media ids (drop p xs),
  tally_of-append media (take p xs) (drop p xs),
  take-append-drop p xs,
)

-- The rows represent the list, and the counters are those of its media.
pub record IsCounted (media : ℕ → Option Media) (p : Playlist) (xs : List ℕ) : Type 0 where
  pub represents : Represents p.rows xs
  pub counted : p.counters ≡ tally_of media xs

add-found :
    (media : ℕ → Option Media) (ids : List ℕ) (position : ℕ) (p : Playlist)
    → All (IsFound media) ids
    → add media ids position p ≡ (
      record {
        rows = add_internal ids position p.rows;
        counters = plus p.counters (tally_of media ids);
        cached = cache_added p.cached (tally_of media ids);
      },
      true,
    )
unfolding add
add-found media ids position p a =
    let e = accumulate-found media ids no_counters a in
    let e' : accumulate_items (found media ids) no_counters ≡ tally_of media ids =
      accumulate_items-tally (found media ids) no_counters ∙ ground arith in
    rw (e, add, e') refl

pub add-IsCounted :
    (media : ℕ → Option Media) (ids : List ℕ) (position : ℕ) (p : Playlist) (xs : List ℕ)
    → All (IsFound media) ids
    → (position ≢ uint32_max → position + length ids ≤ uint32_max)
    → length xs + length ids ≤ uint32_max
    → IsCounted media p xs
    → ((add media ids position p).1 ≡ true)
      × IsCounted media (add media ids position p).0 (insert_all (target position xs) ids xs)
add-IsCounted media ids position p xs a h l v = rw (add-found media ids position p a) (
  refl,
  record {
    represents = add_internal-Represents ids position p.rows xs h l v.represents;
    counted =
        ap (λ c. plus c (tally_of media ids)) v.counted
        ∙ sym (tally_of-insert_all media (target position xs) ids xs);
  },
)

pub tally_of-remove_range :
    (media : ℕ → Option Media) (p n : ℕ) (xs : List ℕ)
    → tally_of media xs
      ≡ plus (tally_of media (remove_range p n xs)) (tally_of media (take n (drop p xs)))
tally_of-remove_range media p n xs = ground (
  arith,
  tally_of-append media (take p xs) (drop p xs),
  take-append-drop p xs,
  tally_of-append media (take n (drop p xs)) (drop n (drop p xs)),
  take-append-drop n (drop p xs),
  tally_of-append media (take p xs) (drop (p + n) xs),
  drop-drop n p xs,
)

minus-plus : (a b : Counters) → minus (plus a b) b ≡ a
minus-plus a b = ground arith

pub remove-suc :
    (items : List Media) (position n : ℕ) (p : Playlist)
    → remove items position (suc n) p ≡ record {
      rows = remove_internal position (suc n) p.rows;
      counters = minus p.counters (tally items);
      cached = minus p.cached (tally items);
    }
unfolding remove
remove-suc items position n p =
    let e : accumulate_items items no_counters ≡ tally items =
      accumulate_items-tally items no_counters ∙ ground arith in
    let taken : (suc n == 0) ≡ false = ground arith in rw (taken, e) refl

-- The removal of a range that lies in the list removes it, and the counters stay those of the media.
pub remove-IsCounted :
    (media : ℕ → Option Media) (position n : ℕ) (p : Playlist) (xs : List ℕ)
    → position + n ≤ length xs
    → length xs ≤ uint32_max
    → IsCounted media p xs
    → IsCounted media
        (remove (found media (take n (drop position xs))) position n p)
        (remove_range position n xs)
unfolding remove
remove-IsCounted media position zero p xs h l v = rw (remove_range_none position xs) v
remove-IsCounted media position (suc n) p xs h l v =
    let gone = take (suc n) (drop position xs) in
    rw (remove-suc (found media gone) position n p) (record {
      represents = remove_internal-Represents position (suc n) p.rows xs h l v.represents;
      counted =
          ap (λ c. minus c (tally_of media gone))
            (v.counted ∙ tally_of-remove_range media position (suc n) xs)
          ∙ minus-plus (tally_of media (remove_range position (suc n) xs)) (tally_of media gone);
    })

-- If the media that are added are found and the copy of the counters in the instance was right, it is
-- right afterwards exactly if as many videos as present videos were added.
pub add-cached :
    (media : ℕ → Option Media) (ids : List ℕ) (position : ℕ) (p : Playlist)
    → All (IsFound media) ids
    → p.cached ≡ p.counters
    → ((add media ids position p).0.cached ≡ (add media ids position p).0.counters)
      ↔ ((tally_of media ids).nb_video ≡ (tally_of media ids).nb_present_video)
add-cached media ids position p a e = rw (add-found media ids position p a) (ground (arith, e))
