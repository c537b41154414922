-- ===== src/Web/Jobs.antt =====
-- internal/web/handlers.go: the handlers of jobs and of the dashboard.
pub mod Downloads
pub mod Starts
use tcl_script_runner.Prelude.{
  ℕ, String, ◌<>◌, ◌==◌, Bool, Option, none, some, List, [], ◌∷◌, ◌++◌, take, if◌then◌else◌,
}
use tcl_script_runner.Outcome.{Outcome, ok, err, hang}
use tcl_script_runner.Becs.Types.{NameValue}
use tcl_script_runner.Runner.Job.{Run, Job}
use tcl_script_runner.Runner.Host.{Host, Sys}
use tcl_script_runner.Runner.Files.{load_job}
use tcl_script_runner.Runner.Listing.{list_jobs}
use tcl_script_runner.Runner.Jobs.{
  Runner, Answer, rejected, completed, unfinished, is_busy, run_job,
}
use tcl_script_runner.Web.Form.{Form, values, form_value}
use tcl_script_runner.Web.App.{
  Services, App, Handled, Response, dashboard, job_log, job_detail, attachment, redirect, failure,
  waiting, render,
}

-- The first run of an environment.
unfoldable pub run_of : String → List Run → Option Run
run_of env [] = none
run_of env (run ∷ runs) = if run.environment == env then some run else run_of env runs

-- What `downloadRun` answers with a run.
unfoldable pub download : String → String → Option Run → Response
download id env none = failure 404 "no output for this run"
download id env (some run) =
    if run.output == ""
    then failure 404 "no output for this run"
    else attachment (env <> "-" <> id <> ".txt") run.output

-- `svc_list` even if it is blank, and `parentoid` unless it is.
unfoldable pub variables_of : Form → List NameValue
variables_of form =
    let parentoid = form_value "parentoid" form in
    record { name = "svc_list"; value = form_value "svc_list" form }
    ∷ (if parentoid == "" then [] else record { name = "parentoid"; value = parentoid } ∷ [])

module _ (H : Host) where
  unfoldable pub show_job : String → App H → Sys H → Response
  show_job id a s = elim (load_job H a.data_dir id s.disk) [
    | ok job ↦ render H a (job_detail job)
    | err e ↦ failure 404 "job not found"
    | hang ↦ waiting
  ]

  unfoldable pub download_run : String → String → App H → Sys H → Response
  unfolding run_of download
  download_run id env a s = elim (load_job H a.data_dir id s.disk) [
    | ok job ↦ download id env (run_of env job.runs)
    | err e ↦ failure 404 "job not found"
    | hang ↦ waiting
  ]

  -- After `RunJob`.
  unfoldable pub started : App H → Answer H × Runner H × Sys H → Handled H
  started a (rejected e, r, s) = (redirect "/?msg=busy", record a { run = r }, s)
  started a (completed job (ok done), r, s) =
      (redirect ("/jobs/" <> job.id), record a { run = r }, s)
  started a (completed job (err e), r, s) = (redirect "/?msg=busy", record a { run = r }, s)
  started a (completed job hang, r, s) = (waiting, record a { run = r }, s)
  started a (unfinished, r, s) = (waiting, record a { run = r }, s)

  unfoldable pub start_job : ℕ → Bool → Form → App H → Sys H → Handled H
  unfolding variables_of started
  start_job fuel bad_form form a s =
      if bad_form
      then (failure 400 "bad form", a, s)
      else elim (values "env" form) as (λ _. Handled H) [
        | [] ↦ (redirect "/?msg=No+environments+selected", a, s)
        | name ∷ names ↦
            if is_busy H a.run
            then (redirect "/?msg=busy", a, s)
            else started a
                (run_job H fuel (name ∷ names) "batch_accounting.tcl" (variables_of form) a.run s)
      ]

module _ (H : Host) (V : Services H) where
  abbrev pub jobs_on_disk : App H → Sys H → Outcome (List Job)
  jobs_on_disk a s =
      list_jobs H V.sort a.data_dir s.disk (V.read_jobs (H.os.join a.data_dir "jobs") s.disk)

  -- The jobs, if they can be listed.
  abbrev pub or_no_jobs : Outcome (List Job) → List Job
  or_no_jobs (ok jobs) = jobs
  or_no_jobs (err e) = []
  or_no_jobs hang = []

  unfoldable pub show_dashboard : App H → Sys H → Response
  show_dashboard a s =
      render H a (
        dashboard a.run.cfg.environments (take 10 (or_no_jobs (jobs_on_disk a s)))
          (is_busy H a.run))

  unfoldable pub show_jobs : App H → Sys H → Response
  show_jobs a s = elim (jobs_on_disk a s) [
    | ok jobs ↦ render H a (job_log jobs)
    | err e ↦ failure 500 ("load jobs: " <> e)
    | hang ↦ waiting
  ]
