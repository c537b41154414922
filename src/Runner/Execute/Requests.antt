-- ===== src/Runner/Execute/Requests.antt =====
-- What `executeRun` of runner.go does to the world, from the making of the client on.
use tcl_script_runner.Prelude.{ℕ, String, ◌<>◌, Option, none, some, List, refl}
use tcl_script_runner.Prelude.Int.{ℤ}
use tcl_script_runner.Outcome.{Outcome, ok, err, hang}
use tcl_script_runner.Config.{Config, Environment}
use tcl_script_runner.Becs.Types.{NameValue}
use tcl_script_runner.Becs.Client.{Route, new_client}
use tcl_script_runner.Becs.Client.Moves.{Steps, stay, ticked, Onward, Onward-refl, Onward-trans}
use tcl_script_runner.Becs.Moves.{
  Moves-login, Moves-logout, Moves-batch_run, Moves-poll, Moves-file_read,
}
use tcl_script_runner.Becs.Batch.{RunResult}
use tcl_script_runner.Becs.File.{file_read}
use tcl_script_runner.Runner.Job.{Run}
use tcl_script_runner.Runner.Host.{Host, Sys}
use tcl_script_runner.Runner.Execute.{
  Ses, fail, report_of, fetch_output, finish, give_up, polled, started, run_batch, log_out,
  logged_in, endpoint, with_client,
}

module _ (H : Host) where
  fetch-Onward : (result : RunResult) (s : Ses H) → Onward s (fetch_output H result s).1
  unfolding fetch_output
  fetch-Onward result s = by_report (report_of H result.batch_variables)
    where
      by_report :
          (o : Option String)
          → Onward s
              (elim o as (λ _. Outcome String × Ses H) [
                | none ↦ (ok result.last_log, s)
                | some path ↦ file_read H.net path s
              ]).1
      by_report none = Onward-refl s
      by_report (some path) = Moves-file_read H.net path s

  finish-Onward : (run : Run) (result : RunResult) (s : Ses H) → Onward s (finish H run result s).1
  unfolding finish
  finish-Onward run result s =
      Onward-trans (fetch-Onward result s)
        (record { route = refl; endpoint = refl; steps = ticked stay })

  give_up-Onward : (run : Run) (message : String) (s : Ses H) → Onward s (give_up H run message s).1
  unfolding give_up fail
  give_up-Onward run message s = record { route = refl; endpoint = refl; steps = ticked stay }

  polled-Onward : (run : Run) (x : Outcome RunResult × Ses H) → Onward x.1 (polled H run x).1
  unfolding polled
  polled-Onward run (ok result, s) = finish-Onward run result s
  polled-Onward run (err e, s) = give_up-Onward run ("poll: " <> e) s
  polled-Onward run (hang, s) = Onward-refl s

  started-Onward :
      (fuel : ℕ) (interval : ℤ) (run : Run) (x : Outcome ℤ × Ses H)
      → Onward x.1 (started H fuel interval run x).1
  unfolding started
  started-Onward fuel interval run (ok id, s) =
      Onward-trans (Moves-poll H.net fuel id interval s)
        (polled-Onward (record run { batch_id = id }) _)
  started-Onward fuel interval run (err e, s) = give_up-Onward run ("batchRun: " <> e) s
  started-Onward fuel interval run (hang, s) = Onward-refl s

  log_out-Onward : (x : Option Run × Ses H) → Onward x.1 (log_out H x).1
  unfolding log_out
  log_out-Onward (none, s) = Onward-refl s
  log_out-Onward (some run, s) = Moves-logout H.net s

  module _ (fuel : ℕ) (cfg : Config) (script : String) (variables : List NameValue)
      (run : Run) where
    run_batch-Onward : (s : Ses H) → Onward s (run_batch H fuel cfg script variables run s).1
    unfolding run_batch
    run_batch-Onward s =
        Onward-trans (Moves-batch_run H.net script variables cfg.default_timeout_seconds s)
          (started-Onward fuel cfg.poll_interval_seconds run _)

    logged_in-Onward :
        (x : Outcome (Unit {0}) × Ses H)
        → Onward x.1 (logged_in H fuel cfg script variables run x).1
    unfolding logged_in
    logged_in-Onward (ok _, s) = Onward-trans (run_batch-Onward s) (log_out-Onward _)
    logged_in-Onward (err e, s) = give_up-Onward run ("login: " <> e) s
    logged_in-Onward (hang, s) = Onward-refl s

    pub with_client-Steps :
        (env : Environment) (password : String) (route : Route) (s : Sys H)
        → Steps H.net route
            (endpoint H env)
            s.world
            (with_client H fuel cfg script variables env password run route s).1.world
    unfolding with_client new_client
    with_client-Steps env password route s =
        (Onward-trans (Moves-login H.net env.username password _) (logged_in-Onward _)).steps
