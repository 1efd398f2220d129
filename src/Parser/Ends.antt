-- ===== src/Parser/Ends.antt =====
-- The pipeline ends for every task, whatever the services answer.
use medialibrary.Common.{
  ℕ, zero, suc, ◌+◌, ◌-◌, ◌*◌, ◌<◌, ◌≡◌, refl, ◌⊎◌, inl, inr, if◌then◌else◌, Bool, true, false,
  some, arith,
}
use medialibrary.Parser.Task.{
  Step, metadata_extraction, metadata_analysis, linking, Task, TaskType, LinkType, FileType,
  is_step_completed, is_link, is_completed, word, new_task,
}
use medialibrary.Parser.Worker.{unknown, success, Answer, returns, Visit}
use medialibrary.Parser.Pipeline.{
  service_at, Next, ends, continues, turn, whole_turn, ended, follow,
}

-- What each service may return: no service has nothing to say, and the link service, the last of
-- the pipeline, does not report a mere success.
abbrev pub is_answer : Step → Answer → Bool
is_answer target (returns unknown) = false
is_answer linking (returns success) = false
is_answer target _ = true

-- The update that takes the attempt succeeds, and the answers are those of the services.
pub record IsVisit (target : Step) (v : Visit) : Type 0 where
  pub started : v.start_updates ≡ true
  pub answers : is_answer target v.answer ≡ true

-- Before a turn: an attempt is left, and the services before the current one have run.
pub record IsReady (t : Task) : Type 0 where
  pub some_left : 0 < t.attempts
  pub in_range : t.attempts < word
  pub incomplete : is_completed t ≡ false
  pub extracted : 0 < t.current_service → is_step_completed metadata_extraction t ≡ true
  pub analysed : 1 < t.current_service → is_link t.type ≡ true
  pub has_service : t.current_service < 3

-- The turns that are left: each attempt, and the extraction that gives its attempt back, are good
-- for one round through the services.
abbrev pub turns : Task → ℕ
turns t = 4 * (t.attempts + (if t.step.extraction then 0 else 1)) + (3 - t.current_service)

-- A turn that does not end the way of the task brings the end nearer.
abbrev Nearer : Task → Next → Type 0
Nearer t (ends t') = Unit {0}
Nearer t (continues t') = IsReady t' × (turns t' < turns t)

extraction-Nearer :
    (v : Visit) (t : Task)
    → t.current_service ≡ 0
    → IsReady t
    → IsVisit metadata_extraction v
    → Nearer t (turn metadata_extraction v t)
unfolding whole_turn is_step_completed
extraction-Nearer v t c r i = ground arith

analysis-Nearer :
    (v : Visit) (t : Task)
    → t.current_service ≡ 1
    → IsReady t
    → IsVisit metadata_analysis v
    → Nearer t (turn metadata_analysis v t)
unfolding whole_turn is_step_completed
analysis-Nearer v t c r i = ground arith

linking-Nearer :
    (v : Visit) (t : Task)
    → t.current_service ≡ 2
    → IsReady t
    → IsVisit linking v
    → Nearer t (turn linking v t)
unfolding whole_turn is_step_completed
linking-Nearer v t c r i = ground arith

turn-Nearer :
    (target : Step) (v : Visit) (t : Task)
    → service_at t.current_service ≡ some target
    → IsReady t
    → IsVisit target v
    → Nearer t (turn target v t)
turn-Nearer metadata_extraction v t e r i = extraction-Nearer v t (ground arith) r i
turn-Nearer metadata_analysis v t e r i = analysis-Nearer v t (ground arith) r i
turn-Nearer linking v t e r i = linking-Nearer v t (ground arith) r i

service_at-some : (n : ℕ) → n < 3 → (target : Step) × (service_at n ≡ some target)
service_at-some zero h = (metadata_extraction, refl)
service_at-some (suc zero) h = (metadata_analysis, refl)
service_at-some (suc (suc zero)) h = (linking, refl)
service_at-some (suc (suc (suc n))) h = absurd (omega arith)

Next-cases : (x : Next) → ((t : Task) × (x ≡ ends t)) ⊎ ((t : Task) × (x ≡ continues t))
Next-cases (ends t) = inl (t, refl)
Next-cases (continues t) = inr (t, refl)

-- Whatever the services answer, as long as no service answers that its status is unknown, the
-- link service reports no mere success and the updates that count the attempts succeed, a task
-- that is ready is done with after at most `turns` turns, and `done` never looks for a fourth
-- service.
pub follow_ends :
    (fuel : ℕ) (visits : ℕ → Step → Visit) (n : ℕ) (t : Task)
    → IsReady t
    → ((m : ℕ) (target : Step) → IsVisit target (visits m target))
    → turns t < fuel
    → (t' : Task) × (follow fuel visits n t ≡ ended t')
unfolding follow
follow_ends zero visits n t r vs h = absurd (omega arith)
follow_ends (suc fuel) visits n t r vs h =
    let (target, at) = service_at-some t.current_service r.has_service in
    let near = turn-Nearer target (visits n target) t at r (vs n target) in
    elim (Next-cases (turn target (visits n target) t)) [
      | inl (t', e) ↦ (t', rw (at, e, follow))
      | inr (t', e) ↦
          let (ready, less) = rw e at near in
          let (last, ih) = follow_ends fuel visits (suc n) t' ready vs (omega arith) in
          (last, rw (at, e, follow) ih)
    ]

new_task-IsReady :
    (type : TaskType) (file : FileType) (link_to : LinkType) → IsReady (new_task type file link_to)
new_task-IsReady type file link_to = ground arith

-- For a new task of any type 32 units of fuel are enough to be done with, under the same
-- conditions: no unknown status, no mere success of the link service, and no failed update of the
-- attempts.
pub follow-new_task :
    (type : TaskType) (file : FileType) (link_to : LinkType) (visits : ℕ → Step → Visit)
    → ((m : ℕ) (target : Step) → IsVisit target (visits m target))
    → (t' : Task) × (follow 32 visits 0 (new_task type file link_to) ≡ ended t')
follow-new_task type file link_to visits vs =
    follow_ends 32 visits 0 (new_task type file link_to) (new_task-IsReady type file link_to) vs
      (ground arith)
