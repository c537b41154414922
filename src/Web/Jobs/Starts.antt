-- ===== src/Web/Jobs/Starts.antt =====
-- internal/web/handlers.go: what `runJob` answers, over the theorems on `RunJob`.
use mathlib.Core.Path.{subst}
use tcl_script_runner.Prelude.{
  ℕ, String, ◌<>◌, Bool, true, false, List, ◌∷◌, ◌≡◌, ◌≢◌, ◌⊎◌, inl, inr, refl, sym, if◌then◌else◌,
}
use tcl_script_runner.Outcome.{Outcome, ok, err, hang}
use tcl_script_runner.Os.{IsLawful}
use tcl_script_runner.Becs.Types.{NameValue}
use tcl_script_runner.Runner.Job.{Job}
use tcl_script_runner.Runner.Host.{Host, Sys}
use tcl_script_runner.Runner.Files.{job_path, load_job}
use tcl_script_runner.Runner.Files.RoundTrip.{ReadsBack}
use tcl_script_runner.Runner.Execute.Runs.{IsTimely}
use tcl_script_runner.Runner.Jobs.{Runner, Answer, rejected, completed, unfinished, run_job}
use tcl_script_runner.Runner.Jobs.Order.{IsReport, Answered, run_job-Answered, selected}
use tcl_script_runner.Runner.Jobs.Returns.{SaveEnds, run_job-SaveEnds}
use tcl_script_runner.Runner.Jobs.Saved.{Kept, run_job-Kept}
use tcl_script_runner.Web.Form.{Form, values}
use tcl_script_runner.Web.App.{App, Handled, job_detail, page, redirect}
use tcl_script_runner.Web.App.Templates.{HasPages, render-HasPages}
use tcl_script_runner.Web.Jobs.{variables_of, started, start_job, show_job}

-- The calls that a save makes return.
pub record SavesReturn (H : Host) : Type 0 where
  pub temps : (dir pattern : String) (s : H.os.State) → (H.os.create_temp dir pattern s).0 ≢ hang
  pub jobs : (j : Job) → H.marshal_job j ≢ hang

module _ (H : Host) (a : App H) where
  -- What is so after `RunJob` gave `y` and the handler `x`. A job was returned, which is a report on the
  -- names, and the application and the system are the ones that RunJob left. If the job was saved, the
  -- browser is sent to its page, which shows it; if not, it is told that the runner is busy.
  pub record Ran (script : String) (variables : List NameValue) (names : List String)
      (y : Answer H × Runner H × Sys H) (x : Handled H) : Type 0 where
    pub job : Job
    pub saved : Outcome (Unit {0})
    pub answered : y.0 ≡ completed job saved
    pub report : IsReport script variables names job
    pub app : x.1 ≡ record a { run = y.1 }
    pub sys : x.2 ≡ y.2
    pub idle : x.1.run.busy ≡ false
    pub answer :
        ((saved ≡ ok tt)
          × (x.0 ≡ redirect ("/jobs/" <> job.id))
          × (show_job H job.id x.1 x.2 ≡ page (job_detail job)))
        ⊎ ((e : String) × (saved ≡ err e) × (x.0 ≡ redirect "/?msg=busy"))

  shown :
      (job : Job) (r : Runner H) (s : Sys H)
      → HasPages a
      → load_job H a.data_dir job.id s.disk ≡ ok job
      → show_job H job.id (record a { run = r }) s ≡ page (job_detail job)
  unfolding show_job
  shown job r s pages e =
      rw (e, show_job) (render-HasPages H (record a { run = r }) (job_detail job) pages)

  started-Ran :
      (script : String) (variables : List NameValue) (names : List String)
      (x : Answer H × Runner H × Sys H)
      → HasPages a
      → Answered H 0 script variables names x
      → SaveEnds H x
      → Kept H a.data_dir x
      → Ran script variables names x (started H a x)
  unfolding started
  started-Ran script variables names (rejected m, r, s) pages h e k = absurd h
  started-Ran script variables names (unfinished, r, s) pages h e k = absurd h
  started-Ran script variables names (completed job (ok done), r, s) pages (report, idle) e k =
      record {
        job = job;
        saved = ok done;
        answered = refl;
        report = report;
        app = refl;
        sys = refl;
        idle = idle;
        answer = inl (refl, refl, shown job r s pages k);
      }
  started-Ran script variables names (completed job (err m), r, s) pages (report, idle) e k =
      record {
        job = job;
        saved = err m;
        answered = refl;
        report = report;
        app = refl;
        sys = refl;
        idle = idle;
        answer = inr (m, refl, refl);
      }
  started-Ran script variables names (completed job hang, r, s) pages h e k = absurd (e refl)

  unless : {A : Type 0} (b : Bool) (x y : A) → b ≡ false → (if b then x else y) ≡ y
  unless true x y h = cc h
  unless false x y h = refl

  start_job_idle :
      (fuel : ℕ) (form : Form) (s : Sys H) (name : String) (names : List String)
      → a.run.busy ≡ false
      → values "env" form ≡ name ∷ names
      → start_job H fuel false form a s
        ≡ started H a
            (run_job H fuel (name ∷ names) "batch_accounting.tcl" (variables_of form) a.run s)
  unfolding start_job
  start_job_idle fuel form s name names idle chosen =
      rw (chosen, start_job) (unless a.run.busy _ _ idle)

  module _ (L : IsLawful H.os) (F : ReadsBack H) (R : SavesReturn H)
      (lasting : (id : String) → H.os.is_temp (job_path H a.data_dir id) ≡ false) (fuel : ℕ)
      (timely : IsTimely H fuel) where
    -- On a lawful file system where no job's path is a temporary name, with JSON that reads back
    -- what it writes, calls that return and polling that ends: on a form that parses and names
    -- some environments, an idle application with its pages, whose runner has its directory,
    -- calls RunJob with those names and the form's variables. RunJob returns a job over the
    -- selected environments, and the application and the system are left as it leaves them, the
    -- runner idle. If the job was saved, the browser is sent to its page, which shows it, and if
    -- not, it is answered as if the runner were busy.
    pub start_job-Ran :
        (form : Form) (s : Sys H) (name : String) (names : List String)
        → HasPages a
        → a.run.data_dir ≡ a.data_dir
        → a.run.busy ≡ false
        → values "env" form ≡ name ∷ names
        → Ran "batch_accounting.tcl"
            (variables_of form)
            (selected a.run.cfg (name ∷ names))
            (run_job H fuel (name ∷ names) "batch_accounting.tcl" (variables_of form) a.run s)
            (start_job H fuel false form a s)
    start_job-Ran form s name names pages dir idle chosen =
        subst
          (Ran "batch_accounting.tcl" (variables_of form) (selected a.run.cfg (name ∷ names))
            (run_job H fuel (name ∷ names) "batch_accounting.tcl" (variables_of form) a.run s))
          (sym (start_job_idle fuel form s name names idle chosen))
          (started-Ran "batch_accounting.tcl" (variables_of form)
            (selected a.run.cfg (name ∷ names))
            (run_job H fuel (name ∷ names) "batch_accounting.tcl" (variables_of form) a.run s) pages
            (run_job-Answered H fuel "batch_accounting.tcl" (variables_of form) (name ∷ names) a.run
              s idle timely)
            (run_job-SaveEnds H R.temps R.jobs fuel (name ∷ names) "batch_accounting.tcl"
              (variables_of form) a.run s)
            (run_job-Kept H a.data_dir L F lasting fuel (name ∷ names) "batch_accounting.tcl"
              (variables_of form) a.run s dir))
