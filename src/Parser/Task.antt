-- ===== src/Parser/Task.antt =====
-- src/parser/Task.cpp and Task.h: how a task keeps its progress, in memory and in its row of the
-- database. An `unsigned int` wraps around at 2^32.
use medialibrary.Common.{
  ℕ, suc, ◌+◌, ◌-◌, ◌%◌, ◌^◌, ◌==◌, if◌then◌else◌, Bool, true, false, not, ◌&&◌,
}

-- The targets of the services. As a number they are the bits 1, 2 and 4.
pub data Step : Type 0 where
  metadata_extraction metadata_analysis linking : Step

-- The bits of `m_step`.
pub record Steps : Type 0 where
  pub extraction : Bool
  pub analysis : Bool
  pub linked : Bool

abbrev pub no_steps : Steps
no_steps = record { extraction = false; analysis = false; linked = false }

pub data TaskType : Type 0 where
  creation link refresh restore : TaskType

pub data LinkType : Type 0 where
  no_link to_playlist to_media to_subscription : LinkType

pub data FileType : Type 0 where
  unknown main part soundtrack subtitles playlist disc subscription cache : FileType

abbrev pub max_task_attempts : ℕ
max_task_attempts = 2

abbrev pub max_link_task_attempts : ℕ
max_link_task_attempts = 6

-- The columns of the row that the bookkeeping writes.
pub record Row : Type 0 where
  pub row_step : Steps
  pub attempts_left : ℕ
  pub is_deleted : Bool

pub record Task : Type 0 where
  pub step : Steps
  pub attempts : ℕ
  pub type : TaskType
  pub file_type : FileType
  pub link_type : LinkType
  pub current_service : ℕ
  pub row : Row

abbrev pub is_link : TaskType → Bool
is_link link = true
is_link _ = false

abbrev pub is_refresh : TaskType → Bool
is_refresh refresh = true
is_refresh _ = false

-- The bits that a step sets.
abbrev pub mark : Step → Steps → Steps
mark metadata_extraction s = record s { extraction = true }
mark metadata_analysis s = record s { analysis = true }
mark linking s = record s { linked = true }

unfoldable pub mark_step_completed : Step → Task → Task
mark_step_completed target t = record t { step = mark target t.step }

-- The same for `Step::Completed`, which is two bits.
unfoldable pub mark_completed : Task → Task
mark_completed t = record t { step = record t.step { extraction = true; analysis = true } }

abbrev pub attempts_of : TaskType → ℕ
attempts_of type = if is_link type then max_link_task_attempts else max_task_attempts

-- `saveParserStep`; the flag says whether the update succeeded.
unfoldable pub save_parser_step : Bool → Task → Task × Bool
save_parser_step false t = (t, false)
save_parser_step true t = (
  record t {
    attempts = attempts_of t.type;
    row = record t.row { row_step = t.step; attempts_left = attempts_of t.type };
  },
  true,
)

abbrev pub word : ℕ
word = 2 ^ 32

-- `decrementRetryCount`, which gives an attempt back.
unfoldable pub decrement_retry_count : Bool → Task → Task × Bool
decrement_retry_count false t = (t, false)
decrement_retry_count true t = (
  record t {
    attempts = (t.attempts + 1) % word;
    row = record t.row { attempts_left = t.row.attempts_left + 1 };
  },
  true,
)

-- `startParserStep`, which takes one. The column may not go below 0 here: see `IsTracked`.
unfoldable pub start_parser_step : Bool → Task → Task
start_parser_step false t = t
start_parser_step true t = record t {
  attempts = (t.attempts + word - 1) % word;
  row = record t.row { attempts_left = t.row.attempts_left - 1 };
}

abbrev pub is_completed : Task → Bool
is_completed t = t.step.extraction && t.step.analysis

abbrev pub has_step : Step → Steps → Bool
has_step metadata_extraction s = s.extraction
has_step metadata_analysis s = s.analysis
has_step linking s = s.linked

abbrev pub links_soundtrack : LinkType → FileType → Bool
links_soundtrack to_media soundtrack = true
links_soundtrack _ _ = false

-- What a link task has to run is fixed, but for the extraction of an audio track.
abbrev pub link_step_completed : Step → Task → Bool
link_step_completed metadata_extraction t =
    if links_soundtrack t.link_type t.file_type then t.step.extraction else true
link_step_completed metadata_analysis t = true
link_step_completed linking t = false

unfoldable pub is_step_completed : Step → Task → Bool
is_step_completed target t =
    if is_link t.type then link_step_completed target t else has_step target t.step

abbrev pub go_to_next_service : Task → Task
go_to_next_service t = record t { current_service = suc t.current_service }

abbrev pub reset_current_service : Task → Task
reset_current_service t = record t { current_service = 0 }

abbrev pub destroy : Task → Task
destroy t = record t { row = record t.row { is_deleted = true } }

-- A task as its constructors build it, with the row that `create` inserts.
abbrev pub new_task : TaskType → FileType → LinkType → Task
new_task type file link_to = record {
  step = no_steps;
  attempts = attempts_of type;
  type = type;
  file_type = file;
  link_type = link_to;
  current_service = 0;
  row = record { row_step = no_steps; attempts_left = attempts_of type; is_deleted = false };
}

-- The constructor that reads a row: what was not saved is lost.
abbrev pub load_row : Task → Task
load_row t = record t { step = t.row.row_step; attempts = t.row.attempts_left; current_service = 0 }

-- The part of the condition of `fetchUncompleted` that looks at the task.
abbrev pub is_fetched : Task → Bool
is_fetched t =
    not (t.row.row_step.extraction && t.row.row_step.analysis)
    && not (t.row.attempts_left == 0)
    && not t.row.is_deleted
