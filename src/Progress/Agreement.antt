-- ===== src/Progress/Agreement.antt =====
-- The progress of a medium: its instance and its row hold the same, and the play count counts.
use medialibrary.Common.{
  ℕ, ◌+◌, ◌%◌, ltb, ◌≡◌, refl, sym, subst, ◌∙◌, if◌then◌else◌, Bool, true, false, not, ◌&&◌, Option,
  none, some, List, [], ◌∷◌, arith, Bool-cases, inl, inr,
}
use medialibrary.Progress.{
  PositionTypes, begin, end, any, uint32, margin, Media, compute_position_type,
  set_last_position_and_time, set_last_position, set_last_time, mark_as_played, set_play_count,
  remove_from_history, Request, sets_position, sets_time, marks, sets_count, forgets, perform,
  perform_all,
}

module _ (Position : Type 0) (unset : Position) (is_before is_behind : Position → ℕ → Bool)
    (time_at : Position → ℕ → Option ℕ) (position_at : ℕ → ℕ → Position) where
  -- The play count of the instance is a word.
  pub record AreInStep (m : Media Position unset is_before is_behind time_at position_at)
      : Type 0 where
    pub same_position : m.own.last_position ≡ m.row.last_position
    pub same_time : m.own.last_time ≡ m.row.last_time
    pub same_date : m.own.last_played_date ≡ m.row.last_played_date
    pub same_count : m.own.play_count ≡ m.row.play_count % uint32

  -- Whether a position counts as a playback to the end.
  abbrev pub is_watched : ℕ → Position → Bool
  is_watched duration position =
      ltb 0 duration
      && (is_behind position (margin duration) && not (is_before position (margin duration)))

  -- The play count after a request whose update succeeds.
  abbrev pub count_after :
      ℕ → Request Position unset is_before is_behind time_at position_at → ℕ → ℕ
  count_after duration (sets_position position date) count =
      if is_watched duration position then count + 1 else count
  count_after duration (sets_time time date) count =
      if is_watched duration (position_at time duration) then count + 1 else count
  count_after duration (marks date) count = count + 1
  count_after duration (sets_count n) count = n % uint32
  count_after duration forgets count = 0

  abbrev pub count_after_all :
      ℕ → List (Request Position unset is_before is_behind time_at position_at × Bool) → ℕ → ℕ
  count_after_all duration [] count = count
  count_after_all duration ((r, updated) ∷ rs) count =
      count_after_all duration rs (if updated then count_after duration r count else count)

  record Follows (m m' : Media Position unset is_before is_behind time_at position_at) (count : ℕ)
      : Type 0 where
    pub in_step : AreInStep m'
    pub same_duration : m'.duration ≡ m.duration
    pub counted : m'.row.play_count ≡ count

  set-Follows :
      (type : PositionTypes) (position : Position) (time : Option ℕ) (date : ℕ)
      (m : Media Position unset is_before is_behind time_at position_at)
      → AreInStep m
      → Follows m
          (set_last_position_and_time Position unset is_before is_behind time_at position_at type
            position time date true m).0
          (elim type [
            | begin ↦ m.row.play_count
            | end ↦ m.row.play_count + 1
            | any ↦ m.row.play_count
          ])
  unfolding set_last_position_and_time
  set-Follows begin position time date m v = record {
    in_step = record {
      same_position = refl;
      same_time = refl;
      same_date = refl;
      same_count = v.same_count;
    };
    same_duration = refl;
    counted = refl;
  }
  set-Follows end position time date m v = record {
    in_step = record {
      same_position = refl;
      same_time = refl;
      same_date = refl;
      same_count = omega (arith, v.same_count);
    };
    same_duration = refl;
    counted = refl;
  }
  set-Follows any position time date m v = record {
    in_step = record {
      same_position = refl;
      same_time = refl;
      same_date = refl;
      same_count = v.same_count;
    };
    same_duration = refl;
    counted = refl;
  }

  positioned-Follows :
      (position : Position) (time given : Option ℕ) (other : Position) (date : ℕ)
      (m : Media Position unset is_before is_behind time_at position_at)
      → AreInStep m
      → Follows m
          (if ltb 0 m.duration
            then set_last_position_and_time Position unset is_before is_behind time_at position_at
                (compute_position_type Position unset is_before is_behind time_at position_at
                  m.duration position)
                position
                time
                date
                true
                m
            else set_last_position_and_time Position unset is_before is_behind time_at position_at
                any other given date true m).0
          (if is_watched m.duration position then m.row.play_count + 1 else m.row.play_count)
  positioned-Follows position time given other date m v = elim (Bool-cases (ltb 0 m.duration)) [
    | inl e ↦
        let type =
          compute_position_type Position unset is_before is_behind time_at position_at m.duration
            position in
        rw e (
          subst
            (Follows m
              (set_last_position_and_time Position unset is_before is_behind time_at position_at
                type position time date true m).0)
            (ground arith) (set-Follows type position time date m v))
    | inr e ↦ rw e (set-Follows any other given date m v)
  ]

  failed-Follows :
      (type : PositionTypes) (position : Position) (time given : Option ℕ) (other : Position)
      (date : ℕ) (m : Media Position unset is_before is_behind time_at position_at)
      → (if ltb 0 m.duration
          then set_last_position_and_time Position unset is_before is_behind time_at position_at
              type position time date false m
          else set_last_position_and_time Position unset is_before is_behind time_at position_at any
              other given date false m).0
        ≡ m
  unfolding set_last_position_and_time
  failed-Follows type position time given other date m = elim (Bool-cases (ltb 0 m.duration)) [
    | inl e ↦ rw e refl
    | inr e ↦ rw e refl
  ]

  perform-failed :
      (r : Request Position unset is_before is_behind time_at position_at)
      (m : Media Position unset is_before is_behind time_at position_at)
      → perform Position unset is_before is_behind time_at position_at r false m ≡ m
  unfolding perform set_last_position set_last_time mark_as_played set_play_count
      remove_from_history
  perform-failed (sets_position position date) m =
      failed-Follows
        (compute_position_type Position unset is_before is_behind time_at position_at m.duration
          position)
        position (time_at position m.duration) none position date m
  perform-failed (sets_time time date) m =
      failed-Follows
        (compute_position_type Position unset is_before is_behind time_at position_at m.duration
          (position_at time m.duration))
        (position_at time m.duration) (some time) (some time) unset date m
  perform-failed (marks date) m = refl
  perform-failed (sets_count n) m = refl
  perform-failed forgets m = refl

  perform-Follows :
      (r : Request Position unset is_before is_behind time_at position_at)
      (m : Media Position unset is_before is_behind time_at position_at)
      → AreInStep m
      → Follows m
          (perform Position unset is_before is_behind time_at position_at r true m)
          (count_after m.duration r m.row.play_count)
  unfolding perform set_last_position set_last_time mark_as_played set_play_count
      remove_from_history
  perform-Follows (sets_position position date) m v =
      positioned-Follows position (time_at position m.duration) none position date m v
  perform-Follows (sets_time time date) m v =
      positioned-Follows (position_at time m.duration) (some time) (some time) unset date m v
  perform-Follows (marks date) m v = record {
    in_step = record {
      same_position = v.same_position;
      same_time = v.same_time;
      same_date = refl;
      same_count = omega (arith, v.same_count);
    };
    same_duration = refl;
    counted = refl;
  }
  perform-Follows (sets_count n) m v = record {
    in_step = record {
      same_position = v.same_position;
      same_time = v.same_time;
      same_date = v.same_date;
      same_count = omega arith;
    };
    same_duration = refl;
    counted = refl;
  }
  perform-Follows forgets m v = record {
    in_step = record {
      same_position = refl;
      same_time = refl;
      same_date = refl;
      same_count = refl;
    };
    same_duration = refl;
    counted = refl;
  }

  request-Follows :
      (r : Request Position unset is_before is_behind time_at position_at) (updated : Bool)
      (m : Media Position unset is_before is_behind time_at position_at)
      → AreInStep m
      → Follows m
          (perform Position unset is_before is_behind time_at position_at r updated m)
          (if updated then count_after m.duration r m.row.play_count else m.row.play_count)
  request-Follows r false m v =
      subst (λ m'. Follows m m' m.row.play_count) (sym (perform-failed r m))
        (record { in_step = v; same_duration = refl; counted = refl })
  request-Follows r true m v = perform-Follows r m v

  -- If the instance of a medium is in step with its row, any sequence of requests, each with an update
  -- that succeeds or fails, leaves it in step, and the row counts each playback marked or taken to the
  -- end since the count was last set or forgotten.
  pub perform_all-AreInStep :
      (rs : List (Request Position unset is_before is_behind time_at position_at × Bool))
      (m : Media Position unset is_before is_behind time_at position_at)
      → AreInStep m
      → let after = perform_all Position unset is_before is_behind time_at position_at rs m in
        AreInStep after × (after.row.play_count ≡ count_after_all m.duration rs m.row.play_count)
  unfolding perform_all
  perform_all-AreInStep [] m v = (v, refl)
  perform_all-AreInStep ((r, updated) ∷ rs) m v =
      let m' = perform Position unset is_before is_behind time_at position_at r updated m in
      let f = request-Follows r updated m v in
      let (in_step, counted) = perform_all-AreInStep rs m' f.in_step in
      (in_step, counted ∙ rw (f.same_duration, f.counted) refl)
