-- ===== src/Parser/Stats.antt =====
-- src/parser/Parser.cpp: the counts of tasks, and what the client is told of them. The counts are
-- 32 bits wide in the source; they are unbounded here.
use medialibrary.Common.{
  ℕ, zero, suc, ◌+◌, ◌%◌, ◌≤◌, ◌==◌, ltb, ◌≡◌, if◌then◌else◌, Bool, true, false, ◌||◌, List, [],
  ◌∷◌, arith,
}

-- `reports` are the calls of `onParsingStatsUpdated`, done and scheduled, the last one first.
pub record Parser : Type 0 where
  pub has_callback : Bool
  pub op_scheduled : ℕ
  pub op_done : ℕ
  pub completion_signaled : Bool
  pub reports : List (ℕ × ℕ)

-- After a flush, a task may still complete while it is not expected any more.
abbrev pub bound_done : Parser → Parser
bound_done p = if ltb p.op_scheduled p.op_done then record p { op_done = p.op_scheduled } else p

unfoldable pub report : Parser → Parser
report p =
    if p.op_done % 10 == 0 || p.op_scheduled == p.op_done || p.completion_signaled
    then record p {
      reports = (p.op_done, p.op_scheduled) ∷ p.reports;
      completion_signaled = p.op_scheduled == p.op_done;
    }
    else p

unfoldable pub update_stats : Parser → Parser
update_stats p = if p.has_callback then report (bound_done p) else p

-- What `parse` and `restore` count, and what `done` counts.
unfoldable pub schedule : ℕ → Parser → Parser
schedule n p = update_stats (record p { op_scheduled = p.op_scheduled + n })

unfoldable pub finish_one : Parser → Parser
finish_one p = update_stats (record p { op_done = p.op_done + 1 })

unfoldable pub flush : Parser → Parser
flush p = record p { op_done = 0; op_scheduled = 0 }

-- `restore`, on the number of tasks that are fetched.
unfoldable pub restore : ℕ → Parser → Parser
restore zero p = p
restore (suc n) p = schedule (suc n) p

unfoldable pub refresh_task_list : ℕ → Parser → Parser
refresh_task_list n p = restore n (flush p)

abbrev pub new_parser : Parser
new_parser = record {
  has_callback = true;
  op_scheduled = 0;
  op_done = 0;
  completion_signaled = false;
  reports = [];
}

pub data Op : Type 0 where
  schedules : ℕ → Op
  finishes flushes : Op
  refreshes : ℕ → Op

unfoldable pub step : Op → Parser → Parser
unfolding schedule finish_one refresh_task_list restore update_stats report flush
step (schedules n) p = schedule n p
step finishes p = finish_one p
step flushes p = flush p
step (refreshes n) p = refresh_task_list n p

abbrev pub run : List Op → Parser → Parser
run [] p = p
run (o ∷ os) p = run os (step o p)

-- Whether the client was last told that all is done.
abbrev pub says_complete : List (ℕ × ℕ) → Bool
says_complete [] = false
says_complete ((d, s) ∷ rest) = s == d

pub record Inv (p : Parser) : Type 0 where
  pub connected : p.has_callback ≡ true
  pub bounded : p.op_done ≤ p.op_scheduled
  pub agrees : p.completion_signaled ≡ says_complete p.reports

step-Inv : (o : Op) (p : Parser) → Inv p → Inv (step o p)
unfolding step
step-Inv (schedules n) p v = ground arith
step-Inv finishes p v = ground arith
step-Inv flushes p v = ground arith
step-Inv (refreshes zero) p v = ground arith
step-Inv (refreshes (suc n)) p v = ground arith

-- With a client connected, and from a state where this holds: never more tasks are done than were
-- scheduled, and the flag says whether the last report was one of completion, after any sequence
-- of calls.
pub run-Inv : (os : List Op) (p : Parser) → Inv p → Inv (run os p)
run-Inv [] p v = v
run-Inv (o ∷ os) p v = run-Inv os (step o p) (step-Inv o p v)

-- With a client connected and the flag in agreement with the last report: when the last scheduled
-- task is finished with, the client is told so in that call; and tasks scheduled after a report
-- of completion are reported in that call.
pub step_reports :
    (p : Parser) (n : ℕ)
    → Inv p
    → (p.op_done + 1 ≡ p.op_scheduled
        → (step finishes p).reports ≡ (p.op_scheduled, p.op_scheduled) ∷ p.reports)
      × (says_complete p.reports ≡ true
          → (step (schedules n) p).reports ≡ (p.op_done, p.op_scheduled + n) ∷ p.reports)
unfolding step
step_reports p n v = ground arith

-- Where the last report was not one of completion, a refresh that finds no task to restore leaves
-- nothing to do, and still no report says so.
pub refresh_silent :
    (p : Parser)
    → says_complete p.reports ≡ false
    → ((refresh_task_list 0 p).op_done ≡ (refresh_task_list 0 p).op_scheduled)
      × (says_complete (refresh_task_list 0 p).reports ≡ false)
unfolding refresh_task_list restore flush
refresh_silent p c = ground arith
