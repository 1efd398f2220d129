-- ===== src/Progress/Tests.antt =====
-- Positions in hundredths, with 1000 for the one that is not set.
use medialibrary.Common.{
  ℕ, ◌*◌, ◌/◌, ◌-◌, ◌≡◌, ltb, refl, Bool, true, false, Option, none, some, List, [], ◌∷◌,
}
use medialibrary.Progress.{Media, Request, sets_position, sets_time, marks, perform_all}
use medialibrary.Progress.Agreement.{AreInStep, perform_all-AreInStep}

abbrev is_before : ℕ → ℕ → Bool
is_before position margin = ltb position margin

abbrev is_behind : ℕ → ℕ → Bool
is_behind position margin = ltb (100 - margin) position

abbrev time_at : ℕ → ℕ → Option ℕ
time_at position duration = some (position * duration / 100)

abbrev position_at : ℕ → ℕ → ℕ
position_at time duration = time * 100 / duration

abbrev film : Media ℕ 1000 is_before is_behind time_at position_at
film = record {
  duration = 6000;
  is_stream = false;
  row = record { last_position = 1000; last_time = none; play_count = 2; last_played_date = 0 };
  own = record { last_position = 1000; last_time = none; play_count = 2; last_played_date = 0 };
  changes = [];
}

abbrev evening : List (Request ℕ 1000 is_before is_behind time_at position_at × Bool)
evening =
    (sets_position 50 11, true)
    ∷ (sets_time 3600 12, false)
    ∷ (sets_position 97 13, true)
    ∷ (marks 14, true)
    ∷ []

film-AreInStep : AreInStep ℕ 1000 is_before is_behind time_at position_at film
film-AreInStep = record {
  same_position = refl;
  same_time = refl;
  same_date = refl;
  same_count = refl;
}

perform_all-AreInStep_example :
    AreInStep ℕ 1000 is_before is_behind time_at position_at
      (perform_all ℕ 1000 is_before is_behind time_at position_at evening film)
    × ((perform_all ℕ 1000 is_before is_behind time_at position_at evening film).row.play_count ≡ 4)
perform_all-AreInStep_example =
    perform_all-AreInStep ℕ 1000 is_before is_behind time_at position_at evening film film-AreInStep
