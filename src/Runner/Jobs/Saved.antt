-- ===== src/Runner/Jobs/Saved.antt =====
-- runner.go: the job that `RunJob` returns against the job that is on the disk.
use mathlib.Core.Path.{subst}
use tcl_script_runner.Prelude.{
  ℕ, String, Bool, true, false, Option, none, some, List, ◌≡◌, refl, sym, if◌then◌else◌,
}
use tcl_script_runner.Outcome.{Outcome, ok, err, hang}
use tcl_script_runner.Os.{IsLawful}
use tcl_script_runner.Becs.Types.{NameValue}
use tcl_script_runner.Runner.Job.{Job}
use tcl_script_runner.Runner.Host.{Host, Sys}
use tcl_script_runner.Runner.Files.{job_path, save, load_job}
use tcl_script_runner.Runner.Files.RoundTrip.{ReadsBack, load_job-save}
use tcl_script_runner.Runner.Jobs.{
  Runner, Answer, rejected, completed, unfinished, wrap_save, close_job, run_job,
}

module _ (H : Host) (data_dir : String) where
  -- A job that is returned without an error is what `LoadJob` gives for its ID.
  abbrev pub Kept : Answer H × Runner H × Sys H → Type 0
  Kept (completed job (ok _), r, t) = load_job H data_dir job.id t.disk ≡ ok job
  Kept (completed job (err e), r, t) = Unit
  Kept (completed job hang, r, t) = Unit
  Kept (rejected m, r, t) = Unit
  Kept (unfinished, r, t) = Unit

  module _ (L : IsLawful H.os) (F : ReadsBack H)
      (lasting : (id : String) → H.os.is_temp (job_path H data_dir id) ≡ false) where
    by_save :
        (job : Job) (r : Runner H) (t : Sys H) (x : Outcome (Unit {0}) × H.os.State)
        → (x.0 ≡ ok tt → load_job H data_dir job.id x.1 ≡ ok job)
        → Kept (completed job (wrap_save H x.0), r, record t { disk = x.1 })
    by_save job r t (ok tt, d) h = h refl
    by_save job r t (err e, d) h = tt
    by_save job r t (hang, d) h = tt

    close_job-Kept :
        (r : Runner H) (x : Option Job × Sys H) → r.data_dir ≡ data_dir → Kept (close_job H r x)
    unfolding close_job
    close_job-Kept r (none, s) e = tt
    close_job-Kept r (some job, s) e =
        let (now, w) = H.net.now s.world in
        let job' : Job = record job { finished_at = now } in
        by_save job' (record r { busy = false }) (record s { world = w })
          (save H job' r.data_dir s.disk)
          (subst
            (λ d.
              (save H job' d s.disk).0 ≡ ok tt
              → load_job H data_dir job'.id (save H job' d s.disk).1 ≡ ok job')
            (sym e) (load_job-save H L job' data_dir (lasting job'.id) F s.disk))

    either_Kept :
        (b : Bool) (x y : Answer H × Runner H × Sys H) → Kept x → Kept y → Kept (if b then x else y)
    either_Kept true x y hx hy = hx
    either_Kept false x y hx hy = hy

    -- On a lawful file system where no job's path is a temporary name, and with JSON that reads
    -- back what it writes: if RunJob returns a job without an error, then LoadJob of its ID
    -- gives that job, with every run and the time at which it was finished.
    pub run_job-Kept :
        (fuel : ℕ) (env_names : List String) (script : String) (variables : List NameValue)
        (r : Runner H) (s : Sys H)
        → r.data_dir ≡ data_dir
        → Kept (run_job H fuel env_names script variables r s)
    unfolding run_job
    run_job-Kept fuel env_names script variables r s e =
        either_Kept r.busy _ _ tt (close_job-Kept (record r { busy = true }) _ e)
