-- ===== src/Parser/Pipeline.antt =====
-- src/parser/Parser.cpp: the three services of the pipeline, and where `done` sends a task.
use medialibrary.Common.{
  ℕ, zero, suc, ◌==◌, if◌then◌else◌, Bool, true, false, ◌||◌, Option, none, some,
}
use medialibrary.Parser.Task.{
  Step, metadata_extraction, metadata_analysis, linking, Task, is_completed, is_refresh,
  go_to_next_service, reset_current_service, destroy, mark_step_completed, mark_completed,
  save_parser_step, decrement_retry_count, start_parser_step,
}
use medialibrary.Parser.Worker.{
  Status, temporary_unavailable, fatal, discarded, requeue, Visit, visit, run_service, conclude,
  handle_service_result,
}

-- The services that `MediaLibrary` adds, by their index; there are three.
abbrev pub service_at : ℕ → Option Step
service_at zero = some metadata_extraction
service_at (suc zero) = some metadata_analysis
service_at (suc (suc zero)) = some linking
service_at (suc (suc (suc n))) = none

-- What `done` does with a task: it is finished with, or goes to the service of its index. An index
-- without a service is the failed assertion.
pub data Next : Type 0 where
  ends continues : Task → Next

abbrev pub ends_pipeline : Status → Bool
ends_pipeline temporary_unavailable = true
ends_pipeline fatal = true
ends_pipeline discarded = true
ends_pipeline _ = false

abbrev pub is_requeue : Status → Bool
is_requeue requeue = true
is_requeue _ = false

-- A refresh task leaves the database when it is done with.
abbrev pub finish : Task → Task
finish t = if is_refresh t.type then destroy t else t

unfoldable pub done : Task → Status → Next
done t status =
    let next = go_to_next_service t in
    if ends_pipeline status || is_completed next
    then ends (finish next)
    else if is_requeue status
    then (if next.attempts == 0 then ends next else continues (reset_current_service next))
    else continues next

-- One turn at the service of the task's index, and `done` after it.
unfoldable pub turn : Step → Visit → Task → Next
turn target v t = let (t', status) = visit target v t in done t' status

-- Everything that a turn computes with.
unfoldable pub whole_turn : Step → Visit → Task → Next
unfolding turn visit run_service conclude handle_service_result done mark_step_completed
    mark_completed save_parser_step decrement_retry_count start_parser_step
whole_turn = turn

-- The way of a task through the pipeline, where the `n`-th turn, at the service of a step, meets
-- `visits n step`.
pub data Outcome : Type 0 where
  ended : Task → Outcome
  no_service out_of_fuel : Outcome

unfoldable pub follow : ℕ → (ℕ → Step → Visit) → ℕ → Task → Outcome
follow zero visits n t = out_of_fuel
follow (suc fuel) visits n t = elim (service_at t.current_service) [
  | none ↦ no_service
  | some target ↦ elim (turn target (visits n target) t) [
    | ends t' ↦ ended t'
    | continues t' ↦ follow fuel visits (suc n) t'
  ]
]
