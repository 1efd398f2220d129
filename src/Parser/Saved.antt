-- ===== src/Parser/Saved.antt =====
-- What of a task's progress is in the database, and what a restart makes of it.
use medialibrary.Common.{◌<◌, ◌≡◌, ◌⊎◌, true, false, ◌&&◌, some, arith}
use medialibrary.Parser.Task.{
  Step, metadata_extraction, metadata_analysis, linking, no_steps, Task, is_step_completed, is_link,
  word, load_row, is_fetched,
}
use medialibrary.Parser.Worker.{Visit}
use medialibrary.Parser.Pipeline.{service_at, Next, ends, continues, turn, whole_turn}
use medialibrary.Parser.Ends.{IsReady, IsVisit}

-- The row holds the attempts that are left, and of the steps none or all that complete the task.
pub record IsTracked (t : Task) : Type 0 where
  pub attempts_saved : t.row.attempts_left ≡ t.attempts
  pub steps_saved :
      (t.row.row_step ≡ no_steps) ⊎ ((t.row.row_step.extraction && t.row.row_step.analysis) ≡ true)

abbrev pub AllTracked : Next → Type 0
AllTracked (ends t) = IsTracked t
AllTracked (continues t) = IsTracked t

-- A turn at the service of its index keeps the row of a ready task in step with the task, whether
-- it ends the task's way or not, where the update of the attempts succeeds and the service
-- answers as it may: the row has the attempts that are left, and no step or those of a completed
-- task.
pub turn-IsTracked :
    (target : Step) (v : Visit) (t : Task)
    → service_at t.current_service ≡ some target
    → IsReady t
    → IsVisit target v
    → IsTracked t
    → AllTracked (turn target v t)
unfolding whole_turn is_step_completed
turn-IsTracked metadata_extraction v t c r i s = ground arith
turn-IsTracked metadata_analysis v t c r i s = ground arith
turn-IsTracked linking v t c r i s = ground arith

-- A task whose row is in step with it, and that is fetched again after a crash, is ready for the
-- pipeline, and the extraction of a task that is no link has to run again. Its attempts are taken
-- to fit into a word.
pub load_row-IsReady :
    (t : Task)
    → IsTracked t
    → t.attempts < word
    → is_fetched t ≡ true
    → IsReady (load_row t)
      × (is_link t.type ≡ false → is_step_completed metadata_extraction (load_row t) ≡ false)
unfolding is_step_completed
load_row-IsReady t s w f = ground arith
