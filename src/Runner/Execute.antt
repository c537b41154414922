-- ===== src/Runner/Execute.antt =====
-- internal/runner/runner.go: `executeRun` with its helpers.
pub mod Runs
pub mod Requests
pub mod Courses
pub mod Closing
pub mod Ends
use tcl_script_runner.Prelude.{
  ℕ, String, ◌<>◌, ◌==◌, Bool, true, false, not, ◌&&◌, Option, none, some, List, [], ◌∷◌,
  if◌then◌else◌,
}
use tcl_script_runner.Prelude.Int.{ℤ, pos, show_ℤ}
use tcl_script_runner.Prelude.Text.{quote}
use tcl_script_runner.Outcome.{Outcome, ok, err, hang, wrap, ◌>>=◌}
use tcl_script_runner.Config.{
  Config, Environment, SshTunnelConfig, WireGuardConfig, tunnel_none, tunnel_ssh, tunnel_wireguard,
}
use tcl_script_runner.Config.Crypto.{decrypt}
use tcl_script_runner.Becs.Types.{NameValue, state_finished}
use tcl_script_runner.Becs.Client.{Client, Session, Route, default_route, tunnel_route, new_client}
use tcl_script_runner.Becs.Sessions.{login, logout}
use tcl_script_runner.Becs.Batch.{RunResult, batch_run, poll}
use tcl_script_runner.Becs.File.{file_read}
use tcl_script_runner.Tunnel.{Tunnels}
use tcl_script_runner.Runner.Job.{Run, begin_run, run_finished, run_stopped, run_error}
use tcl_script_runner.Runner.Credentials.{build_tunnel}
use tcl_script_runner.Runner.Host.{Host, Sys}

module _ (H : Host) where
  abbrev Tun : Type 0
  Tun = H.tunnels.Tunnel

  abbrev pub Ses : Type 0
  Ses = Session H.net

  -- `fail` with the message of the error.
  pub fail : Run → String → H.net.World → Run × H.net.World
  fail run message w =
      let (now, w') = H.net.now w in
      (record run { finished_at = now; status = run_error; err = message }, w')

  -- The first output variable that names a report.
  unfoldable pub report_of : List NameValue → Option String
  report_of [] = none
  report_of (v ∷ vs) =
      if v.name == "report_name" && not (v.value == "") then some v.value else report_of vs

  unfoldable pub fetch_output : RunResult → Ses → Outcome String × Ses
  fetch_output result s = elim (report_of result.batch_variables) [
    | none ↦ (ok result.last_log, s)
    | some path ↦ file_read H.net path s
  ]

  abbrev pub output_or : String → Outcome String → String
  output_or last_log (ok output) = output
  output_or last_log (err e) = last_log
  output_or last_log hang = last_log

  -- The end of a run whose batch has ended.
  finish : Run → RunResult → Ses → Run × Ses
  finish run result s =
      let (fetched, t) = fetch_output result s in
      let (now, w) = H.net.now t.world in
      (
        record run {
          finished_at = now;
          output = output_or result.last_log fetched;
          status = if result.state == state_finished then run_finished else run_stopped;
        },
        record t { world = w },
      )

  -- `fail` in a session.
  give_up : Run → String → Ses → Run × Ses
  unfolding fail
  give_up run message s = let (r, w) = fail run message s.world in (r, record s { world = w })

  -- From `Poll` on; `none` is a run that has not ended.
  polled : Run → Outcome RunResult × Ses → Option Run × Ses
  unfolding finish give_up
  polled run (ok result, s) = let (r, t) = finish run result s in (some r, t)
  polled run (err e, s) = let (r, t) = give_up run ("poll: " <> e) s in (some r, t)
  polled run (hang, s) = (none, s)

  -- From `BatchRun` on.
  pub started : ℕ → ℤ → Run → Outcome ℤ × Ses → Option Run × Ses
  unfolding polled give_up
  started fuel interval run (ok batch_id, s) =
      polled (record run { batch_id = batch_id }) (poll H.net fuel batch_id interval s)
  started fuel interval run (err e, s) =
      let (r, t) = give_up run ("batchRun: " <> e) s in (some r, t)
  started fuel interval run (hang, s) = (none, s)

  run_batch : ℕ → Config → String → List NameValue → Run → Ses → Option Run × Ses
  unfolding started
  run_batch fuel cfg script variables run s =
      started fuel cfg.poll_interval_seconds run
        (batch_run H.net script variables cfg.default_timeout_seconds s)

  -- The deferred `Logout`, whose error is only logged.
  log_out : Option Run × Ses → Option Run × Ses
  log_out (none, s) = (none, s)
  log_out (some run, s) = (some run, (logout H.net s).1)

  -- After `Login`.
  logged_in :
      ℕ → Config → String → List NameValue → Run → Outcome (Unit {0}) × Ses → Option Run × Ses
  unfolding run_batch log_out give_up
  logged_in fuel cfg script variables run (ok _, s) =
      log_out (run_batch fuel cfg script variables run s)
  logged_in fuel cfg script variables run (err e, s) =
      let (r, t) = give_up run ("login: " <> e) s in (some r, t)
  logged_in fuel cfg script variables run (hang, s) = (none, s)

  abbrev pub endpoint : Environment → String
  endpoint env = "http://" <> env.becs_host <> ":" <> show_ℤ env.becs_port <> "/"

  pub with_client :
      ℕ
      → Config
      → String
      → List NameValue
      → Environment
      → String
      → Run
      → Route
      → Sys H
      → Option Run × Sys H
  unfolding logged_in
  with_client fuel cfg script variables env password run route s =
      let session : Ses = record {
        client = new_client (endpoint env) route;
        log = s.log;
        world = s.world;
      } in
      let (r, t) =
        logged_in fuel cfg script variables run (login H.net env.username password session) in
      (r, record s { log = t.log; world = t.world })

  pub route_of : Tun → Route
  route_of tun = if H.tunnels.dialer tun then tunnel_route else default_route

  -- The deferred `Disconnect`, whose error is only logged.
  disconnect : Tun → Option Run × Sys H → Option Run × Sys H
  disconnect tun (none, s) = (none, s)
  disconnect tun (some run, s) =
      let (e, tun', w) = H.tunnels.disconnect tun s.world in (some run, record s { world = w })

  fail_run : Run → String → Sys H → Option Run × Sys H
  unfolding fail
  fail_run run message s = let (r, w) = fail run message s.world in (some r, record s { world = w })

  -- After `Connect`; `connected` is what it gave.
  through :
      ℕ
      → Config
      → String
      → List NameValue
      → Environment
      → String
      → Run
      → Option String × Tun
      → Sys H
      → Option Run × Sys H
  unfolding with_client disconnect fail_run route_of
  through fuel cfg script variables env password run (some e, tun) s =
      fail_run run ("tunnel connect: " <> e) s
  through fuel cfg script variables env password run (none, tun) s =
      disconnect tun (with_client fuel cfg script variables env password run (route_of tun) s)

  with_tunnel :
      ℕ
      → Config
      → String
      → List NameValue
      → Environment
      → String
      → Run
      → Outcome (Option Tun)
      → Sys H
      → Option Run × Sys H
  unfolding through with_client fail_run
  with_tunnel fuel cfg script variables env password run (err e) s = fail_run run e s
  with_tunnel fuel cfg script variables env password run hang s = (none, s)
  with_tunnel fuel cfg script variables env password run (ok none) s =
      with_client fuel cfg script variables env password run default_route s
  with_tunnel fuel cfg script variables env password run (ok (some tun)) s =
      let (e, tun', w) = H.tunnels.connect tun s.world in
      through fuel cfg script variables env password run (e, tun') (record s { world = w })

  -- From the decrypted password on.
  with_password :
      ℕ
      → Config
      → String
      → String
      → List NameValue
      → Environment
      → Run
      → Outcome String
      → Sys H
      → Option Run × Sys H
  unfolding with_tunnel fail_run
  with_password fuel cfg passphrase script variables env run (err e) s =
      fail_run run ("decrypt BECS password: " <> e) s
  with_password fuel cfg passphrase script variables env run hang s = (none, s)
  with_password fuel cfg passphrase script variables env run (ok password) s =
      with_tunnel fuel cfg script variables env password run (build_tunnel H passphrase env) s

  -- `executeRun`; `none` is a run that has not ended after `fuel` polls.
  unfoldable pub execute_run :
      ℕ → Config → String → String → List NameValue → Environment → Sys H → Option Run × Sys H
  unfolding with_password
  execute_run fuel cfg passphrase script variables env s =
      let (now, w) = H.net.now s.world in
      with_password fuel cfg passphrase script variables env (begin_run env.name now)
        (decrypt H.ciphers env.password passphrase) (record s { world = w })
