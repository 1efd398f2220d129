-- ===== src/Progress.antt =====
-- src/Media.cpp: the progress of the playback, the play count and the date, in the row of a medium and
-- in its instance. A time of -1 is `none`, and a duration that is not positive is 0.
pub mod Agreement
mod Tests
use medialibrary.Common.{
  ℕ, zero, suc, ◌+◌, ◌*◌, ◌%◌, ◌==◌, ltb, if◌then◌else◌, Bool, true, false, ◌&&◌, Option, none,
  some, List, [], ◌∷◌, ◌++◌,
}

pub data PositionTypes : Type 0 where
  begin end any : PositionTypes

pub data ProgressResult : Type 0 where
  error reaches_begin reaches_end as_is : ProgressResult

pub data HistoryType : Type 0 where
  local network : HistoryType

abbrev pub uint32 : ℕ
uint32 = 4294967296

abbrev pub hour : ℕ
hour = 3600000

-- `margin`, in hundredths.
abbrev pub margin : ℕ → ℕ
margin duration =
    if ltb duration hour
    then 5
    else if ltb duration (2 * hour)
    then 4
    else if ltb duration (3 * hour)
    then 3
    else if ltb duration (4 * hour)
    then 2
    else 1

-- Positions are floating-point numbers of the platform: `unset` is -1, the tests compare with a
-- margin of hundredths at the start and at the end, and the last two convert by the duration.
module _ (Position : Type 0) (unset : Position) (is_before is_behind : Position → ℕ → Bool)
    (time_at : Position → ℕ → Option ℕ) (position_at : ℕ → ℕ → Position) where
  -- The columns of the row; the date is 0 for a null.
  pub record History : Type 0 where
    pub last_position : Position
    pub last_time : Option ℕ
    pub play_count : ℕ
    pub last_played_date : ℕ

  pub record Media : Type 0 where
    pub duration : ℕ
    pub is_stream : Bool
    pub row : History
    pub own : History
    pub changes : List HistoryType

  abbrev pub compute_position_type : ℕ → Position → PositionTypes
  compute_position_type duration position =
      if is_before position (margin duration)
      then begin
      else if is_behind position (margin duration)
      then end
      else any

  -- `onHistoryChanged`.
  abbrev pub history_changed : Media → Media
  history_changed m = record m {
    changes = m.changes ++ (if m.is_stream then network else local) ∷ [];
  }

  abbrev progress : Position → Option ℕ → ℕ → History → History
  progress position time date h = record h {
    last_position = position;
    last_time = time;
    last_played_date = date;
  }

  -- `setLastPositionAndTime` at a date, where the update succeeds or fails. The count of the instance
  -- is a word, that of the row is not.
  unfoldable pub set_last_position_and_time :
      PositionTypes → Position → Option ℕ → ℕ → Bool → Media → Media × ProgressResult
  set_last_position_and_time type position time date false m = (m, error)
  set_last_position_and_time begin position time date true m = (
    history_changed
        (record m { row = progress unset none date m.row; own = progress unset none date m.own }),
    reaches_begin,
  )
  set_last_position_and_time end position time date true m = (
    history_changed (record m {
      row = record (progress unset none date m.row) { play_count = m.row.play_count + 1 };
      own = record (progress unset none date m.own) {
        play_count = (m.own.play_count + 1) % uint32;
      };
    }),
    reaches_end,
  )
  set_last_position_and_time any position time date true m = (
    history_changed (record m {
      row = progress position time date m.row;
      own = progress position time date m.own;
    }),
    as_is,
  )

  unfoldable pub set_last_position : Position → ℕ → Bool → Media → Media × ProgressResult
  unfolding set_last_position_and_time
  set_last_position position date updated m =
      if ltb 0 m.duration
      then set_last_position_and_time (compute_position_type m.duration position) position
          (time_at position m.duration) date updated m
      else set_last_position_and_time any position none date updated m

  unfoldable pub set_last_time : ℕ → ℕ → Bool → Media → Media × ProgressResult
  unfolding set_last_position_and_time
  set_last_time time date updated m =
      if ltb 0 m.duration
      then set_last_position_and_time
          (compute_position_type m.duration (position_at time m.duration))
          (position_at time m.duration) (some time) date updated m
      else set_last_position_and_time any unset (some time) date updated m

  unfoldable pub mark_as_played : ℕ → Bool → Media → Media × Bool
  mark_as_played date false m = (m, false)
  mark_as_played date true m = (
    history_changed (record m {
      row = record m.row { last_played_date = date; play_count = m.row.play_count + 1 };
      own = record m.own { last_played_date = date; play_count = (m.own.play_count + 1) % uint32 };
    }),
    true,
  )

  -- The argument is a word.
  unfoldable pub set_play_count : ℕ → Bool → Media → Media × Bool
  set_play_count play_count false m = (m, false)
  set_play_count play_count true m = (
    record m {
      row = record m.row { play_count = play_count % uint32 };
      own = record m.own { play_count = play_count % uint32 };
    },
    true,
  )

  abbrev pub no_history : History
  no_history = record {
    last_position = unset;
    last_time = none;
    play_count = 0;
    last_played_date = 0;
  }

  unfoldable pub remove_from_history : Bool → Media → Media × Bool
  remove_from_history false m = (m, false)
  remove_from_history true m =
      (history_changed (record m { row = no_history; own = no_history }), true)

  pub data Request : Type 0 where
    sets_position : Position → ℕ → Request
    sets_time : ℕ → ℕ → Request
    marks : ℕ → Request
    sets_count : ℕ → Request
    forgets : Request

  -- A request, with whether its update succeeds.
  unfoldable pub perform : Request → Bool → Media → Media
  unfolding set_last_position set_last_time mark_as_played set_play_count remove_from_history
  perform (sets_position position date) updated m = (set_last_position position date updated m).0
  perform (sets_time time date) updated m = (set_last_time time date updated m).0
  perform (marks date) updated m = (mark_as_played date updated m).0
  perform (sets_count n) updated m = (set_play_count n updated m).0
  perform forgets updated m = (remove_from_history updated m).0

  unfoldable pub perform_all : List (Request × Bool) → Media → Media
  unfolding perform
  perform_all [] m = m
  perform_all ((r, updated) ∷ rs) m = perform_all rs (perform r updated m)
