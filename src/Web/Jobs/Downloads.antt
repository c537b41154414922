-- ===== src/Web/Jobs/Downloads.antt =====
-- internal/web/handlers.go: `downloadRun` of a job that has been saved.
use tcl_script_runner.Prelude.{
  String, ◌<>◌, ◌==◌, false, some, List, [], ◌∷◌, ◌++◌, ◌≡◌, ◌≢◌, refl, ap, ◌∙◌, arith, eq_iff,
}
use tcl_script_runner.Outcome.{ok}
use tcl_script_runner.Os.{IsLawful}
use tcl_script_runner.Runner.Job.{Run, Job}
use tcl_script_runner.Runner.Host.{Host, Sys}
use tcl_script_runner.Runner.Files.{job_path, save}
use tcl_script_runner.Runner.Files.RoundTrip.{ReadsBack, load_job-save}
use tcl_script_runner.Web.App.{App, attachment}
use tcl_script_runner.Web.Jobs.{run_of, download, download_run}

-- No run is of the environment.
unfoldable pub Lacks : String → List Run → Type 0
Lacks env [] = Unit
Lacks env (run ∷ runs) = (run.environment ≢ env) × Lacks env runs

run_of-append :
    (env : String) (before after : List Run) (run : Run)
    → Lacks env before
    → run.environment ≡ env
    → run_of env (before ++ run ∷ after) ≡ some run
unfolding run_of Lacks
run_of-append env [] after run l e = ground (arith, eq_iff run.environment env)
run_of-append env (other ∷ before) after run (ne, l) e =
    ground (arith, eq_iff other.environment env, run_of-append env before after run l e)

module _ (H : Host) (L : IsLawful H.os) (F : ReadsBack H) (a : App H) (s : Sys H) (job : Job)
    (lasting : H.os.is_temp (job_path H a.data_dir job.id) ≡ false) where
  -- On a lawful file system, for a job whose path is no temporary name, and with JSON that reads
  -- back what it writes: after the job is saved with success, the download of an environment's
  -- run is the output of its first run, if that is not empty.
  pub download_run-save :
      (env : String) (before after : List Run) (run : Run)
      → job.runs ≡ before ++ run ∷ after
      → Lacks env before
      → run.environment ≡ env
      → run.output ≢ ""
      → (save H job a.data_dir s.disk).0 ≡ ok tt
      → download_run H job.id env a (record s { disk = (save H job a.data_dir s.disk).1 })
        ≡ attachment (env <> "-" <> job.id <> ".txt") run.output
  unfolding download_run download
  download_run-save env before after run runs l e filled done =
      let first : run_of env job.runs ≡ some run =
        ap (run_of env) runs ∙ run_of-append env before after run l e in
      let empty : (run.output == "") ≡ false = ground (arith, eq_iff run.output "") in
      rw (load_job-save H L job a.data_dir lasting F s.disk done, first, empty, download_run) refl
