-- ===== src/Playlist/Refinement.antt =====
-- Playlists: any sequence of additions, removals and moves does to the rows and the counters what it
-- does to the list of the media.
use medialibrary.Common.{
  ℕ, zero, suc, ◌+◌, ◌==◌, ==_iff, if◌then◌else◌, ◌≤◌, ◌<◌, ◌≡◌, ◌≢◌, refl, sym, ◌∙◌, Option, none,
  List, [], ◌∷◌, length, take, drop, All, arith, Bool-cases, inl, inr, length-take, length-drop,
}
use medialibrary.Playlist.{Row, uint32_max, move}
use medialibrary.Playlist.Ranges.{
  insert_all, remove_range, All-take, All-drop, All-insert_all, All-remove_range, length-insert_all,
  length-remove_range,
}
use medialibrary.Playlist.Moves.{target, move_items, stays, new_position, AreIds, move-Represents}
use medialibrary.Playlist.Counters.{Media, Playlist, add, remove, no_counters, clear_content}
use medialibrary.Playlist.Listing.{items, IsPresent, items-present}
use medialibrary.Playlist.Counters.Agreement.{
  IsFound, IsCounted, found, tally, tally_of, tally_of-insert_all, tally_of-remove_range,
  add-IsCounted, remove-IsCounted,
}

pub data Op : Type 0 where
  adds : List ℕ → ℕ → Op
  removes : ℕ → ℕ → Op
  moves : ℕ → ℕ → ℕ → Op
  clears : Op

module _ (media : ℕ → Option Media) where
  -- An operation of the code.
  unfoldable pub perform : Op → Playlist → Playlist
  unfolding items
  perform (adds ids position) p = (add media ids position p).0
  perform (removes position n) p = remove (take n (drop position (items media p.rows))) position n p
  perform (moves from position n) p = record p { rows = (move from position n p.rows).0 }
  perform clears p = clear_content p

  unfoldable pub perform_all : List Op → Playlist → Playlist
  perform_all [] p = p
  perform_all (o ∷ os) p = perform_all os (perform o p)

-- A move on a list; to the largest word it does nothing, as the position behind it is 0 in the code.
abbrev pub move_or_stay : ℕ → ℕ → ℕ → List ℕ → List ℕ
move_or_stay from position n xs =
    if position == uint32_max then xs else move_items from position n xs

-- The same on a list.
abbrev pub apply : Op → List ℕ → List ℕ
apply (adds ids position) xs = insert_all (target position xs) ids xs
apply (removes position n) xs = remove_range position n xs
apply (moves from position n) xs = move_or_stay from position n xs
apply clears xs = []

abbrev pub apply_all : List Op → List ℕ → List ℕ
apply_all [] xs = xs
apply_all (o ∷ os) xs = apply_all os (apply o xs)

-- The ranges that are moved or removed lie in the list, and a target is a word. Media that are added
-- exist, the list stays within the largest word, and where they are not appended their positions do.
-- Where some are removed, all media of the list are present.
abbrev pub IsValid : (ℕ → Option Media) → Op → List ℕ → Type 0
IsValid media (adds ids position) xs =
    All (IsFound media) ids
    × (length xs + length ids ≤ uint32_max)
    × (position ≢ uint32_max → position + length ids ≤ uint32_max)
IsValid media (removes position n) xs = (position + n ≤ length xs) × All (IsPresent media) xs
IsValid media (moves from position n) xs = (from + n ≤ length xs) × (position ≤ uint32_max)
IsValid media clears xs = Unit

abbrev pub AreValid : (ℕ → Option Media) → List Op → List ℕ → Type 0
AreValid media [] xs = Unit
AreValid media (o ∷ os) xs = IsValid media o xs × AreValid media os (apply o xs)

pub record IsSound (media : ℕ → Option Media) (p : Playlist) (xs : List ℕ) : Type 0 where
  pub counted : IsCounted media p xs
  pub all_found : All (IsFound media) xs
  pub bounded : length xs ≤ uint32_max

found-AreIds :
    (media : ℕ → Option Media) (xs : List ℕ) → media 0 ≡ none → All (IsFound media) xs → AreIds xs
found-AreIds media [] z a = tt
found-AreIds media (zero ∷ xs) z a = absurd (a.0 z)
found-AreIds media (suc x ∷ xs) z a = (omega arith, found-AreIds media xs z a.1)

tally_of-nil : (media : ℕ → Option Media) → tally_of media [] ≡ no_counters
unfolding found tally
tally_of-nil media = refl

tally_of-move_items :
    (media : ℕ → Option Media) (from position n : ℕ) (xs : List ℕ)
    → tally_of media (move_items from position n xs) ≡ tally_of media xs
tally_of-move_items media from position n xs =
    let rest = remove_range from n xs in
    let t = target (new_position from position n) rest in
    elim (Bool-cases (stays from position n)) [
      | inl s ↦ rw s refl
      | inr s ↦ rw s (
          tally_of-insert_all media t (take n (drop from xs)) rest
          ∙ sym (tally_of-remove_range media from n xs))
    ]

All-move_items :
    (P : ℕ → Type 0) (from position n : ℕ) (xs : List ℕ)
    → All P xs
    → All P (move_items from position n xs)
All-move_items P from position n xs a =
    let rest = remove_range from n xs in
    let t = target (new_position from position n) rest in
    elim (Bool-cases (stays from position n)) [
      | inl s ↦ rw s a
      | inr s ↦ rw s (
          All-insert_all P t (take n (drop from xs)) rest
            (All-take P n (drop from xs) (All-drop P from xs a)) (All-remove_range P from n xs a))
    ]

length-move_items :
    (from position n : ℕ) (xs : List ℕ)
    → from + n ≤ length xs
    → length (move_items from position n xs) ≡ length xs
length-move_items from position n xs h =
    let rest = remove_range from n xs in
    let t = target (new_position from position n) rest in
    elim (Bool-cases (stays from position n)) [
      | inl s ↦ rw s refl
      | inr s ↦ rw s (
          omega (
            arith,
            length-insert_all t (take n (drop from xs)) rest,
            length-remove_range from n xs h,
            length-take n (drop from xs),
            length-drop from xs,
          ))
    ]

move-IsSound :
    (media : ℕ → Option Media) (from position n : ℕ) (p : Playlist) (xs : List ℕ)
    → media 0 ≡ none
    → from + n ≤ length xs
    → position < uint32_max
    → IsSound media p xs
    → IsSound media
        (record p { rows = (move from position n p.rows).0 })
        (move_items from position n xs)
move-IsSound media from position n p xs z h small s = record {
  counted = record {
    represents =
        (move-Represents from position n p.rows xs h s.bounded small
          (found-AreIds media xs z s.all_found) s.counted.represents).0;
    counted = s.counted.counted ∙ sym (tally_of-move_items media from position n xs);
  };
  all_found = All-move_items (IsFound media) from position n xs s.all_found;
  bounded = omega (arith, length-move_items from position n xs h, s.bounded);
}

move_max :
    (from n : ℕ) (rows : List Row) → from ≤ uint32_max → (move from uint32_max n rows).0 ≡ rows
unfolding move
move_max from n rows h = ground arith

perform-IsSound :
    (media : ℕ → Option Media) (o : Op) (p : Playlist) (xs : List ℕ)
    → media 0 ≡ none
    → IsValid media o xs
    → IsSound media p xs
    → IsSound media (perform media o p) (apply o xs)
unfolding perform
perform-IsSound media (adds ids position) p xs z (a, l, h) s = record {
  counted = (add-IsCounted media ids position p xs a h l s.counted).1;
  all_found = All-insert_all (IsFound media) (target position xs) ids xs a s.all_found;
  bounded = omega (arith, length-insert_all (target position xs) ids xs);
}
perform-IsSound media (removes position n) p xs z (h, here) s =
    let same = items-present media position n p.rows xs here s.counted.represents in
    record {
      counted = rw same (remove-IsCounted media position n p xs h s.bounded s.counted);
      all_found = All-remove_range (IsFound media) position n xs s.all_found;
      bounded = omega (arith, length-remove_range position n xs h, s.bounded);
    }
perform-IsSound media (moves from position n) p xs z (h, word) s =
    elim (Bool-cases (position == uint32_max)) [
      | inl e ↦
          let last : position ≡ uint32_max = (==_iff position uint32_max).0 e in
          rw (last, move_max from n p.rows (omega (arith, s.bounded))) s
      | inr e ↦ rw e (move-IsSound media from position n p xs z h (ground (arith, e)) s)
    ]
perform-IsSound media clears p xs z h s = record {
  counted = record {
    represents = record { dense = λ q. ground arith; items = tt; same_length = refl };
    counted = sym (tally_of-nil media);
  };
  all_found = tt;
  bounded = omega arith;
}

-- For any sequence of additions, removals, moves and clearings as follows, the rows represent the list
-- that the same sequence makes of a list, each position once, and the counters are those of its media.
-- The ranges that are moved or removed lie in the list, and all media of the list are present where some
-- are removed. Media that are added exist, the list never has more than 4294967295 of them, and the
-- position of an addition is 4294967295, which appends, or leaves room for all that is added below that.
-- The target of a move is a word; to 4294967295 a move does nothing, on the list too.
pub perform_all-IsSound :
    (media : ℕ → Option Media) (os : List Op) (p : Playlist) (xs : List ℕ)
    → media 0 ≡ none
    → AreValid media os xs
    → IsSound media p xs
    → IsSound media (perform_all media os p) (apply_all os xs)
unfolding perform_all
perform_all-IsSound media [] p xs z h s = s
perform_all-IsSound media (o ∷ os) p xs z h s =
    perform_all-IsSound media os (perform media o p) (apply o xs) z h.1
      (perform-IsSound media o p xs z h.0 s)
