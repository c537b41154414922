-- ===== src/Runner/Execute/Ends.antt =====
-- What `executeRun` of runner.go makes of a batch that has ended.
use tcl_script_runner.Prelude.{String, none, some, ◌≡◌, ◌≢◌, ◌⊎◌}
use tcl_script_runner.Prelude.Int.{ℤ}
use tcl_script_runner.Outcome.{Outcome, ok}
use tcl_script_runner.Becs.Batch.{RunResult}
use tcl_script_runner.Becs.File.{file_read}
use tcl_script_runner.Runner.Job.{Run, RunStatus}
use tcl_script_runner.Runner.Host.{Host}
use tcl_script_runner.Runner.Execute.{Ses, report_of}

-- The states of a batch that has ended, and the status of its run.
abbrev pub Matches : String → RunStatus → Type 0
Matches state status =
    ((state ≡ "Finished") × (status ≡ "finished")) ⊎ ((state ≡ "Stopped") × (status ≡ "stopped"))

module _ (H : Host) where
  -- The output is the report that a variable names, if it can be read from the server, and else the log.
  abbrev pub IsOutput : RunResult → Ses H → String → Type 0
  IsOutput result s output =
      ((report_of H result.batch_variables ≡ none) × (output ≡ result.last_log))
      ⊎ ((path : String) × (report_of H result.batch_variables ≡ some path)
          × (((file_read H.net path s).0 ≡ ok output)
              ⊎ (((file_read H.net path s).0 ≢ ok output) × (output ≡ result.last_log))))

  -- The run of that batch.
  pub record Reports (batch_id : ℤ) (result : RunResult) (s : Ses H) (run : Run) : Type 0 where
    pub batch : run.batch_id ≡ batch_id
    pub status : Matches result.state run.status
    pub output : IsOutput result s run.output
