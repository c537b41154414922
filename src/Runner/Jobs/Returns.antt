-- ===== src/Runner/Jobs/Returns.antt =====
-- runner.go: whether the last save of `RunJob` returns, and what `RunJob` leaves of the runner.
use tcl_script_runner.Prelude.{
  ℕ, String, Bool, true, false, Option, none, some, List, ◌≡◌, ◌≢◌, refl, if◌then◌else◌,
}
use tcl_script_runner.Outcome.{Outcome, ok, err, hang}
use tcl_script_runner.Becs.Types.{NameValue}
use tcl_script_runner.Runner.Job.{Job}
use tcl_script_runner.Runner.Host.{Host, Sys}
use tcl_script_runner.Runner.Files.{save}
use tcl_script_runner.Runner.Files.Returns.{save_returns}
use tcl_script_runner.Runner.Jobs.{
  Runner, Answer, rejected, completed, unfinished, wrap_save, close_job, run_job,
}

module _ (H : Host) where
  -- The save of a job that is returned has ended.
  abbrev pub SaveEnds : Answer H × Runner H × Sys H → Type 0
  SaveEnds (completed job e, r, s) = e ≢ hang
  SaveEnds (rejected m, r, s) = Unit
  SaveEnds (unfinished, r, s) = Unit

  module _
      (temps : (dir pattern : String) (s : H.os.State) → (H.os.create_temp dir pattern s).0 ≢ hang)
      (marshals : (j : Job) → H.marshal_job j ≢ hang) where
    wrapped : (e : Outcome (Unit {0})) → e ≢ hang → wrap_save H e ≢ hang
    wrapped (ok done) h = h
    wrapped (err m) h = λ q. cc q
    wrapped hang h = h

    close_job-SaveEnds : (r : Runner H) (x : Option Job × Sys H) → SaveEnds (close_job H r x)
    unfolding close_job
    close_job-SaveEnds r (none, s) = tt
    close_job-SaveEnds r (some job, s) =
        let job' : Job = record job { finished_at = (H.net.now s.world).0 } in
        wrapped (save H job' r.data_dir s.disk).0
          (save_returns H temps job' r.data_dir s.disk (marshals job'))

    either_ends :
        (b : Bool) (x y : Answer H × Runner H × Sys H)
        → SaveEnds x
        → SaveEnds y
        → SaveEnds (if b then x else y)
    either_ends true x y h k = h
    either_ends false x y h k = k

    pub run_job-SaveEnds :
        (fuel : ℕ) (env_names : List String) (script : String) (variables : List NameValue)
        (r : Runner H) (s : Sys H)
        → SaveEnds (run_job H fuel env_names script variables r s)
    unfolding run_job
    run_job-SaveEnds fuel env_names script variables r s =
        either_ends r.busy _ _ tt (close_job-SaveEnds (record r { busy = true }) _)

  -- `RunJob` changes nothing of the runner but its flag.
  abbrev pub SameRunner : Runner H → Answer H × Runner H × Sys H → Type 0
  SameRunner r x = (x.1.cfg ≡ r.cfg) × (x.1.data_dir ≡ r.data_dir)

  close_job-SameRunner :
      (r : Runner H) (b : Bool) (x : Option Job × Sys H)
      → SameRunner r (close_job H (record r { busy = b }) x)
  unfolding close_job
  close_job-SameRunner r b (none, s) = (refl, refl)
  close_job-SameRunner r b (some job, s) = (refl, refl)

  either_same :
      (r : Runner H) (b : Bool) (x y : Answer H × Runner H × Sys H)
      → SameRunner r x
      → SameRunner r y
      → SameRunner r (if b then x else y)
  either_same r true x y h k = h
  either_same r false x y h k = k

  pub run_job-SameRunner :
      (fuel : ℕ) (env_names : List String) (script : String) (variables : List NameValue)
      (r : Runner H) (s : Sys H)
      → SameRunner r (run_job H fuel env_names script variables r s)
  unfolding run_job
  run_job-SameRunner fuel env_names script variables r s =
      either_same r r.busy _ _ (refl, refl) (close_job-SameRunner r true _)
