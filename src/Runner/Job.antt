-- ===== src/Runner/Job.antt =====
-- internal/runner/job.go: the record of a job.
use tcl_script_runner.Prelude.{ℕ, String, List, []}
use tcl_script_runner.Prelude.Int.{ℤ, pos}
use tcl_script_runner.Becs.Types.{NameValue}

abbrev pub RunStatus : Type 0
RunStatus = String

abbrev pub run_finished : RunStatus
run_finished = "finished"

abbrev pub run_stopped : RunStatus
run_stopped = "stopped"

abbrev pub run_error : RunStatus
run_error = "error"

-- Times are in nanoseconds, and 0 is Go's zero time.
pub record Run : Type 0 where
  pub environment : String
  pub started_at : ℕ
  pub finished_at : ℕ
  pub batch_id : ℤ
  pub status : RunStatus
  pub output : String
  pub err : String

pub record Job : Type 0 where
  pub id : String
  pub started_at : ℕ
  pub finished_at : ℕ
  pub script : String
  pub variables : List NameValue
  pub runs : List Run

-- `now` is the time, and `id` is how it is formatted.
unfoldable pub new_job : ℕ → String → String → List NameValue → Job
new_job now id script variables = record {
  id = id;
  started_at = now;
  finished_at = 0;
  script = script;
  variables = variables;
  runs = [];
}

-- A run as `executeRun` begins it.
abbrev pub begin_run : String → ℕ → Run
begin_run name now = record {
  environment = name;
  started_at = now;
  finished_at = 0;
  batch_id = pos 0;
  status = "";
  output = "";
  err = "";
}
