-- ===== src/Runner/Execute/Runs.antt =====
-- What `executeRun` of runner.go returns, on every path.
use tcl_script_runner.Prelude.{
  ◌≢◌, ℕ, String, ◌==◌, Option, none, some, List, ◌≡◌, refl, ◌⊎◌, inl, inr, Bool-cases,
}
use tcl_script_runner.Prelude.Int.{ℤ}
use tcl_script_runner.Outcome.{Outcome, ok, err, hang}
use tcl_script_runner.Config.{Config, Environment}
use tcl_script_runner.Becs.Types.{NameValue, state_finished}
use tcl_script_runner.Becs.Client.{Route, Session}
use tcl_script_runner.Becs.Batch.Returns.{batch_run_returns}
use tcl_script_runner.Becs.Sessions.Laws.{login_returns}
use tcl_script_runner.Config.Crypto.{SetsUp}
use tcl_script_runner.Config.Crypto.Returns.{decrypt_returns}
use tcl_script_runner.Runner.Credentials.Returns.{build_tunnel_returns}
use tcl_script_runner.Becs.Batch.{RunResult, poll}
use tcl_script_runner.Runner.Job.{Run, begin_run, run_finished, run_stopped, run_error}
use tcl_script_runner.Runner.Host.{Host, Sys}
use tcl_script_runner.Runner.Credentials.{Tun}
use tcl_script_runner.Runner.Execute.{
  Ses, fail, finish, polled, started, run_batch, log_out, logged_in, with_client, disconnect,
  through, with_tunnel, with_password, execute_run,
}

-- A run failed and has no output, or it finished or was stopped and has no error.
abbrev pub IsOutcome : Run → Type 0
IsOutcome run =
    ((run.status ≡ run_error) × (run.output ≡ ""))
    ⊎ (((run.status ≡ run_finished) ⊎ (run.status ≡ run_stopped)) × (run.err ≡ ""))

-- A run of that environment, with an outcome.
pub record IsDone (name : String) (run : Run) : Type 0 where
  pub environment : run.environment ≡ name
  pub status : IsOutcome run

-- A run of that environment that has neither output nor error yet.
abbrev IsFresh : String → Run → Type 0
IsFresh name run = (run.environment ≡ name) × (run.output ≡ "") × (run.err ≡ "")

-- With that fuel every polling loop ends, and the set-up of a cipher does.
pub record IsTimely (H : Host) (fuel : ℕ) : Type 0 where
  pub polls :
      (batch_id interval : ℤ) (s : Session H.net) → (poll H.net fuel batch_id interval s).0 ≢ hang
  pub ciphers : SetsUp H.ciphers

-- The run has ended, and it is done.
abbrev pub Done : String → Option Run → Type 0
Done name none = ⊥
Done name (some run) = IsDone name run

module _ (H : Host) (name : String) where
  fail-IsDone :
      (run : Run) (message : String) (w : H.net.World)
      → IsFresh name run
      → IsDone name (fail H run message w).0
  unfolding fail
  fail-IsDone run message w e = record { environment = e.0; status = inl (refl, e.1) }

  finish-IsDone :
      (run : Run) (result : RunResult) (s : Ses H)
      → IsFresh name run
      → IsDone name (finish H run result s).0
  unfolding finish
  finish-IsDone run result s e = record {
    environment = e.0;
    status = elim (Bool-cases (result.state == state_finished)) [
      | inl f ↦ inr (rw f (inl refl), e.2)
      | inr f ↦ inr (rw f (inr refl), e.2)
    ];
  }

  polled-Done :
      (run : Run) (x : Outcome RunResult × Ses H)
      → IsFresh name run
      → x.0 ≢ hang
      → Done name (polled H run x).0
  unfolding polled
  polled-Done run (ok result, s) e h = finish-IsDone run result s e
  polled-Done run (err m, s) e h = fail-IsDone run _ s.world e
  polled-Done run (hang, s) e h = absurd (h refl)

  started-Done :
      (fuel : ℕ) (interval : ℤ) (run : Run) (x : Outcome ℤ × Ses H)
      → IsTimely H fuel
      → IsFresh name run
      → x.0 ≢ hang
      → Done name (started H fuel interval run x).0
  unfolding started
  started-Done fuel interval run (ok id, s) y e h =
      polled-Done (record run { batch_id = id }) _ e (y.polls id interval s)
  started-Done fuel interval run (err m, s) y e h = fail-IsDone run _ s.world e
  started-Done fuel interval run (hang, s) y e h = absurd (h refl)

  log_out-Done : (x : Option Run × Ses H) → Done name x.0 → Done name (log_out H x).0
  unfolding log_out
  log_out-Done (none, s) d = absurd d
  log_out-Done (some run, s) d = d

  disconnect-Done :
      (tun : Tun H) (x : Option Run × Sys H) → Done name x.0 → Done name (disconnect H tun x).0
  unfolding disconnect
  disconnect-Done tun (none, s) d = absurd d
  disconnect-Done tun (some run, s) d = d

  module _ (fuel : ℕ) (cfg : Config) (script : String) (variables : List NameValue) (run : Run)
      (e : IsFresh name run) (y : IsTimely H fuel) where
    logged_in-Done :
        (x : Outcome (Unit {0}) × Ses H)
        → x.0 ≢ hang
        → Done name (logged_in H fuel cfg script variables run x).0
    unfolding logged_in
    logged_in-Done (ok _, s) h =
        log_out-Done (run_batch H fuel cfg script variables run s)
          (started-Done fuel _ run _ y e (batch_run_returns H.net _ _ _ s))
    logged_in-Done (err m, s) h = fail-IsDone run _ s.world e
    logged_in-Done (hang, s) h = absurd (h refl)

    with_client-Done :
        (env : Environment) (password : String) (route : Route) (s : Sys H)
        → Done name (with_client H fuel cfg script variables env password run route s).0
    unfolding with_client
    with_client-Done env password route s = logged_in-Done _ (login_returns H.net _ _ _)

    through-Done :
        (env : Environment) (password : String) (x : Option String × Tun H) (s : Sys H)
        → Done name (through H fuel cfg script variables env password run x s).0
    unfolding through
    through-Done env password (some m, tun) s = fail-IsDone run _ s.world e
    through-Done env password (none, tun) s =
        disconnect-Done tun (with_client H fuel cfg script variables env password run _ s)
          (with_client-Done env password _ s)

    with_tunnel-Done :
        (env : Environment) (password : String) (x : Outcome (Option (Tun H))) (s : Sys H)
        → x ≢ hang
        → Done name (with_tunnel H fuel cfg script variables env password run x s).0
    unfolding with_tunnel
    with_tunnel-Done env password (ok none) s h = with_client-Done env password _ s
    with_tunnel-Done env password (ok (some tun)) s h = through-Done env password _ _
    with_tunnel-Done env password (err m) s h = fail-IsDone run _ s.world e
    with_tunnel-Done env password hang s h = absurd (h refl)

    with_password-Done :
        (passphrase : String) (env : Environment) (x : Outcome String) (s : Sys H)
        → x ≢ hang
        → Done name (with_password H fuel cfg passphrase script variables env run x s).0
    unfolding with_password
    with_password-Done passphrase env (ok password) s h =
        with_tunnel-Done env password _ s (build_tunnel_returns H y.ciphers passphrase env)
    with_password-Done passphrase env (err m) s h = fail-IsDone run _ s.world e
    with_password-Done passphrase env hang s h = absurd (h refl)

-- A run ends on every path, as a run of its environment.
pub execute_run-Done :
    (H : Host) (fuel : ℕ) (cfg : Config) (passphrase script : String) (variables : List NameValue)
    (env : Environment) (s : Sys H)
    → IsTimely H fuel
    → Done env.name (execute_run H fuel cfg passphrase script variables env s).0
unfolding execute_run
execute_run-Done H fuel cfg passphrase script variables env s y =
    with_password-Done H env.name fuel cfg script variables (begin_run env.name _)
      (refl, refl, refl) y passphrase env _ _
      (decrypt_returns H.ciphers y.ciphers env.password passphrase)
