-- ===== src/Web/Routes/Answers.antt =====
-- internal/web/handlers.go: whether the handlers that only read answer.
use tcl_script_runner.Prelude.{
  Bool, true, false, List, if◌then◌else◌, ℕ, String, ◌<>◌, ◌==◌, Option, none, some, ◌≢◌, refl,
}
use tcl_script_runner.Outcome.{Outcome, ok, err, hang, wrap, wrap-ne-hang}
use tcl_script_runner.Os.{Read, contents, missing, failed}
use tcl_script_runner.Config.Crud.{find_by_name}
use tcl_script_runner.Config.{Environment}
use tcl_script_runner.Runner.Job.{Run, Job}
use tcl_script_runner.Runner.Host.{Host, Sys}
use tcl_script_runner.Runner.Files.{load_job}
use tcl_script_runner.Runner.Listing.{Listing, listed, absent, unreadable, list_jobs}
use tcl_script_runner.Runner.Execute.Runs.{IsTimely}
use tcl_script_runner.Web.App.{
  Services, App, Response, failure, waiting, attachment, job_detail, job_log, environment_form,
  render,
}
use tcl_script_runner.Web.Environments.{
  edit_environment_form, list_environments, new_environment_form,
}
use tcl_script_runner.Web.Environments.Sound.{
  IsSound, Sound, IsSound, Sound, Trusts, render_answers,
}
use tcl_script_runner.Web.Jobs.{
  run_of, download, show_job, download_run, jobs_on_disk, show_jobs, show_dashboard,
}
use tcl_script_runner.Becs.Recorder.{clear}
use tcl_script_runner.Web.Routes.{routes, unrouted, known_path}
use tcl_script_runner.Web.Monitor.{
  api_log_clear, show_monitor, status_fragment, api_log_fragment, api_log_clear,
}
use tcl_script_runner.Web.Routes.{routes, unrouted, known_path}

-- What the server relies on: the calls of the libraries return, and with that fuel polling ends.
pub record Returns (H : Host) (V : Services H) (fuel : ℕ) : Type 0 where
  pub trusts : Trusts H V
  pub timely : IsTimely H fuel
  pub marshals : (j : Job) → H.marshal_job j ≢ hang
  pub unmarshals : (text : String) → H.unmarshal_job text ≢ hang

module _ (H : Host) (V : Services H) (fuel : ℕ) (R : Returns H V fuel) where
  -- The jobs that are listed.
  listing_answers :
      (data_dir : String) (d : H.os.State) (l : Listing) → list_jobs H V.sort data_dir d l ≢ hang
  unfolding list_jobs
  listing_answers data_dir d (listed es) h = cc h
  listing_answers data_dir d absent h = cc h
  listing_answers data_dir d (unreadable e) h = cc h

  jobs_answer :
      (a : App H) (m : Outcome (List Job))
      → m ≢ hang
      → (elim m as (λ _. Response) [
        | ok jobs ↦ render H a (job_log jobs)
        | err e ↦ failure 500 ("load jobs: " <> e)
        | hang ↦ waiting
      ])
        ≢ waiting
  jobs_answer a (ok jobs) h = render_answers H a _
  jobs_answer a (err e) h = λ q. cc q
  jobs_answer a hang h = absurd (h refl)

  pub show_jobs_answers : (a : App H) (s : Sys H) → show_jobs H V a s ≢ waiting
  unfolding show_jobs
  show_jobs_answers a s = jobs_answer a (jobs_on_disk H V a s) (listing_answers _ _ _)

  read_returns :
      (prefix m : String) (n : String → String) (r : Read)
      → (elim r as (λ _. Outcome Job) [
        | contents text ↦ wrap prefix (H.unmarshal_job text)
        | missing ↦ err m
        | failed e ↦ err (n e)
      ])
        ≢ hang
  read_returns prefix m n (contents text) = wrap-ne-hang prefix _ (R.unmarshals text)
  read_returns prefix m n missing = λ q. cc q
  read_returns prefix m n (failed e) = λ q. cc q

  load_job_returns : (data_dir id : String) (d : H.os.State) → load_job H data_dir id d ≢ hang
  unfolding load_job
  load_job_returns data_dir id d = read_returns _ _ _ (H.os.read_file _ d)

  by_job :
      (m : Outcome Job) (f : Job → Response) (e : Response)
      → m ≢ hang
      → ((j : Job) → f j ≢ waiting)
      → e ≢ waiting
      → (elim m as (λ _. Response) [ ok job ↦ f job | err x ↦ e | hang ↦ waiting ]) ≢ waiting
  by_job (ok job) f e h k g = k job
  by_job (err x) f e h k g = g
  by_job hang f e h k g = absurd (h refl)

  pub show_job_answers : (id : String) (a : App H) (s : Sys H) → show_job H id a s ≢ waiting
  unfolding show_job
  show_job_answers id a s =
      by_job _ (λ job. render H a (job_detail job)) (failure 404 "job not found")
        (load_job_returns a.data_dir id s.disk) (λ job. render_answers H a _) (λ q. cc q)

  if_text :
      (b : Bool) (name text : String)
      → (if b then failure 404 "no output for this run" else attachment name text) ≢ waiting
  if_text true name text q = cc q
  if_text false name text q = cc q

  download_answers : (id env : String) (o : Option Run) → download id env o ≢ waiting
  unfolding download
  download_answers id env none = λ q. cc q
  download_answers id env (some run) = if_text (run.output == "") _ _

  pub download_run_answers :
      (id env : String) (a : App H) (s : Sys H) → download_run H id env a s ≢ waiting
  unfolding download_run
  download_run_answers id env a s =
      by_job _ (λ job. download id env (run_of env job.runs)) (failure 404 "job not found")
        (load_job_returns a.data_dir id s.disk)
        (λ job. download_answers id env (run_of env job.runs)) (λ q. cc q)

  edit_answers :
      (a : App H) (o : Option (Environment × ℕ))
      → (elim o as (λ _. Response) [
        | none ↦ failure 404 "environment not found"
        | some (env, i) ↦ render H a (environment_form env false "")
      ])
        ≢ waiting
  edit_answers a none = λ q. cc q
  edit_answers a (some (env, i)) = render_answers H a _

  pub show_dashboard_answers : (a : App H) (s : Sys H) → show_dashboard H V a s ≢ waiting
  unfolding show_dashboard
  show_dashboard_answers a s = render_answers H a _

  pub list_environments_answers : (msg : String) (a : App H) → list_environments H msg a ≢ waiting
  unfolding list_environments
  list_environments_answers msg a = render_answers H a _

  pub new_environment_form_answers : (a : App H) → new_environment_form H a ≢ waiting
  unfolding new_environment_form
  new_environment_form_answers a = render_answers H a _

  pub edit_environment_form_answers :
      (name : String) (a : App H) → edit_environment_form H name a ≢ waiting
  unfolding edit_environment_form
  edit_environment_form_answers name a = edit_answers a (find_by_name a.run.cfg name)

  pub show_monitor_answers : (a : App H) → show_monitor H a ≢ waiting
  unfolding show_monitor
  show_monitor_answers a = render_answers H a _

  pub api_log_answers : (s : Sys H) → api_log_fragment H V s ≢ waiting
  unfolding api_log_fragment
  api_log_answers s h = cc h

  pub status_answers : (a : App H) → status_fragment H a ≢ waiting
  unfolding status_fragment
  status_answers a h = cc h

  pub api_log_clear-Sound : (a : App H) (s : Sys H) → IsSound a → Sound (api_log_clear H V a s)
  unfolding api_log_clear
  api_log_clear-Sound a s k = (k, api_log_answers (record s { log = clear s.log }))

  by_known :
      (b : Bool)
      → (if b then failure 405 "Method Not Allowed" else failure 404 "404 page not found") ≢ waiting
  by_known true h = cc h
  by_known false h = cc h

  pub unrouted_answers : (path : List String) → unrouted path ≢ waiting
  unfolding unrouted
  unrouted_answers path = by_known (known_path routes path)
