-- ===== src/Playlist/Tests.antt =====
-- A playlist of three media.
use medialibrary.Common.{
  video, audio, ℕ, zero, suc, ◌≡◌, refl, true, false, Option, none, some, List, [], ◌∷◌, arith,
  take, drop,
}
use medialibrary.Playlist.{
  Row, insert_row, add_internal, next_marked, delete_marked, delete_range, remove_internal,
  media_at, media_from, move, uint32_max,
}
use medialibrary.Playlist.Positions.{Represents}
use medialibrary.Playlist.Counters.{Media, Playlist, no_counters, remove}
use medialibrary.Playlist.Counters.Agreement.{IsCounted, found, tally, tally_of}
use medialibrary.Playlist.Listing.{items, remove-missing}
use medialibrary.Playlist.Refinement.{
  adds, removes, moves, perform_all, IsSound, perform_all-IsSound,
}

abbrev row : ℕ → ℕ → Row
row m p = record { media_id = m; position = p }

abbrev letters : List Row
letters = row 1 0 ∷ row 2 1 ∷ row 3 2 ∷ row 4 3 ∷ row 5 4 ∷ []

-- The example of the interface: of A, B, C, D, E two from 1 on are moved to 3.
move_test : (move 1 3 2 letters).0 ≡ row 1 0 ∷ row 4 1 ∷ row 5 4 ∷ row 2 2 ∷ row 3 3 ∷ []
unfolding move media_from media_at remove_internal delete_range delete_marked next_marked
    add_internal insert_row
move_test = refl

-- A target of 2^32 - 1 moves nothing, since the position behind it is 0.
move_max_test : move 0 uint32_max 1 letters ≡ (letters, true)
unfolding move
move_max_test = refl

-- The media 1 to 3; the second is a video that is not present.
abbrev library : ℕ → Option Media
library zero = none
library (suc zero) = some (record { type = video; is_present = true; duration = 5 })
library (suc (suc zero)) = some (record { type = video; is_present = false; duration = 0 })
library (suc (suc (suc n))) = some (record { type = audio; is_present = true; duration = 7 })

abbrev empty : Playlist
empty = record { rows = []; counters = no_counters; cached = no_counters }

empty-IsSound : IsSound library empty []
unfolding found tally
empty-IsSound = record {
  counted = record {
    represents = record { dense = λ p. ground arith; items = tt; same_length = refl };
    counted = refl;
  };
  all_found = tt;
  bounded = omega arith;
}

perform_all-IsSound_example :
    IsSound library
      (perform_all library
        (adds (1 ∷ 3 ∷ []) uint32_max
          ∷ moves 0 1 1
          ∷ moves 0 uint32_max 1
          ∷ removes 1 1
          ∷ adds (2 ∷ []) 0
          ∷ [])
        empty)
      (2 ∷ 3 ∷ [])
perform_all-IsSound_example =
    perform_all-IsSound library
      (adds (1 ∷ 3 ∷ []) uint32_max
        ∷ moves 0 1 1
        ∷ moves 0 uint32_max 1
        ∷ removes 1 1
        ∷ adds (2 ∷ []) 0
        ∷ [])
      empty [] refl
      (
        (((λ e. cc), ((λ e. cc), tt)), omega arith, (λ n. absurd (n refl))),
        (
          (omega arith, omega arith),
          (
            (omega arith, omega arith),
            (
              (omega arith, (refl, (refl, tt))),
              ((((λ e. cc), tt), omega arith, (λ n. omega arith)), tt),
            ),
          ),
        ),
      )
      empty-IsSound

-- A playlist with the video that is not present.
abbrev gone : Playlist
gone = record { rows = row 2 0 ∷ []; counters = tally_of library (2 ∷ []); cached = no_counters }

gone-IsCounted : IsCounted library gone (2 ∷ [])
gone-IsCounted = record {
  represents = record { dense = λ p. ground arith; items = (refl, tt); same_length = refl };
  counted = refl;
}

remove-missing_example :
    Represents (remove (take 1 (drop 0 (items library gone.rows))) 0 1 gone).rows []
    × ((remove (take 1 (drop 0 (items library gone.rows))) 0 1 gone).counters
        ≡ tally_of library (2 ∷ []))
remove-missing_example =
    remove-missing library 0 1 gone (2 ∷ []) (omega arith) (omega arith) (refl, tt) gone-IsCounted
