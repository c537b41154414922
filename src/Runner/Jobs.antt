-- ===== src/Runner/Jobs.antt =====
-- internal/runner/runner.go: `RunJob`, with the runner's busy flag. The configuration is the one
-- that the runner has while the job lasts.
pub mod Order
pub mod Saved
pub mod Closing
pub mod Returns
use tcl_script_runner.Prelude.{
  ℕ, String, ◌<>◌, Bool, true, false, Option, none, some, List, [], ◌∷◌, ◌++◌, if◌then◌else◌,
}
use tcl_script_runner.Prelude.Text.{quote}
use tcl_script_runner.Outcome.{Outcome, ok, err, hang}
use tcl_script_runner.Config.{Config, Environment}
use tcl_script_runner.Config.Crud.{find_by_name}
use tcl_script_runner.Config.Crud.Lookup.{env_of}
use tcl_script_runner.Becs.Types.{NameValue}
use tcl_script_runner.Runner.Job.{Run, Job, begin_run, new_job, run_error}
use tcl_script_runner.Runner.Host.{Host, Sys}
use tcl_script_runner.Runner.Files.{save}
use tcl_script_runner.Runner.Execute.{execute_run}

module _ (H : Host) where
  pub record Runner : Type 0 where
    pub cfg : Config
    pub data_dir : String
    pub passphrase : String
    pub busy : Bool

  unfoldable pub new_runner : Config → String → String → Runner
  new_runner cfg data_dir passphrase = record {
    cfg = cfg;
    data_dir = data_dir;
    passphrase = passphrase;
    busy = false;
  }

  abbrev pub is_busy : Runner → Bool
  is_busy r = r.busy

  -- What `RunJob` gives: an error at once, a job with the error of its last save, or nothing yet.
  pub data Answer : Type 0 where
    rejected : String → Answer
    completed : Job → Outcome (Unit {0}) → Answer
    unfinished : Answer

  -- A save whose error is only logged.
  pub save_quietly : String → Job → Sys H → Sys H
  save_quietly data_dir job s = record s { disk = (save H job data_dir s.disk).1 }

  -- The run of a name that no environment has; the clock is read twice.
  unknown : String → Sys H → Run × Sys H
  unknown name s =
      let (t0, w0) = H.net.now s.world in
      let (t1, w1) = H.net.now w0 in
      (
        record (begin_run name t0) {
          finished_at = t1;
          status = run_error;
          err = "environment " <> quote name <> " not found in config";
        },
        record s { world = w1 },
      )

  abbrev add_run : Job → Run → Job
  add_run job run = record job { runs = job.runs ++ run ∷ [] }

  -- One round of the loop, before the job is saved; `none` is a run that has not ended.
  visit : ℕ → Runner → String → Job → Option Environment → Sys H → Option Job × Sys H
  unfolding unknown
  visit fuel r name job none s = let (run, t) = unknown name s in (some (add_run job run), t)
  visit fuel r name job (some env) s =
      if env.enabled
      then (let (run, t) = execute_run H fuel r.cfg r.passphrase job.script job.variables env s in
          elim run [ none ↦ (none, t) | some done ↦ (some (add_run job done), t) ])
      else (some job, s)

  unfoldable pub loop : ℕ → Runner → List String → Job → Sys H → Option Job × Sys H
  unfolding visit save_quietly
  loop fuel r [] job s = (some job, s)
  loop fuel r (name ∷ names) job s =
      let (next, t) = visit fuel r name job (env_of (find_by_name r.cfg name)) s in
      elim next [
        | none ↦ (none, t)
        | some job' ↦ loop fuel r names job' (save_quietly r.data_dir job' t)
      ]

  abbrev wrap_save : Outcome (Unit {0}) → Outcome (Unit {0})
  wrap_save (ok _) = ok tt
  wrap_save (err e) = err ("runner: save job: " <> e)
  wrap_save hang = hang

  -- After the loop: the time, the last save, and the deferred reset of the flag.
  close_job : Runner → Option Job × Sys H → Answer × Runner × Sys H
  close_job r (none, s) = (unfinished, r, s)
  close_job r (some job, s) =
      let (now, w) = H.net.now s.world in
      let job' = record job { finished_at = now } in
      let (e, d) = save H job' r.data_dir s.disk in
      (completed job' (wrap_save e), record r { busy = false }, record s { world = w; disk = d })

  unfoldable pub run_job :
      ℕ → List String → String → List NameValue → Runner → Sys H → Answer × Runner × Sys H
  unfolding loop close_job save_quietly
  run_job fuel env_names script variables r s =
      if r.busy
      then (rejected "a job is already running; wait for it to complete", r, s)
      else (let r' = record r { busy = true } in
          let (now, w) = H.net.now s.world in
          let job = new_job now (H.format_id now) script variables in
          close_job r'
            (loop fuel r' env_names job (save_quietly r.data_dir job (record s { world = w }))))
