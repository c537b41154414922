-- ===== src/Runner/Execute/Courses.antt =====
-- What `executeRun` of runner.go does to the world, from the tunnel on.
use tcl_script_runner.Prelude.{
  ℕ, String, ◌<>◌, ◌==◌, Bool, true, false, Option, none, some, List, ◌≡◌, ◌≢◌, refl, eq_iff,
  if◌then◌else◌,
}
use tcl_script_runner.Outcome.{Outcome, ok, err, hang, ◌>>=◌}
use tcl_script_runner.Config.{Config, Environment, tunnel_none, tunnel_ssh, tunnel_wireguard}
use tcl_script_runner.Config.Crypto.{decrypt}
use tcl_script_runner.Becs.Types.{NameValue}
use tcl_script_runner.Becs.Client.{default_route}
use tcl_script_runner.Becs.Client.Moves.{Steps}
use tcl_script_runner.Runner.Job.{Run, begin_run, run_error}
use tcl_script_runner.Runner.Host.{Host, Sys}
use tcl_script_runner.Runner.Credentials.{Tun, build_tunnel, build_ssh, build_wireguard}
use tcl_script_runner.Runner.Execute.{
  fail, endpoint, route_of, disconnect, fail_run, through, with_tunnel, with_password, execute_run,
}
use tcl_script_runner.Runner.Execute.Requests.{with_client-Steps}
use tcl_script_runner.Runner.Execute.Runs.{IsTimely, Done, execute_run-Done}

module _ (H : Host) where
  -- What a run that has ended did between two worlds. It failed before anything was sent; or it has
  -- no tunnel, and sent its requests directly; or its tunnel did not connect, and it failed and nothing
  -- was sent; or it sent its requests by the tunnel, to its own environment, and then disconnected it.
  pub data Course (passphrase : String) (env : Environment)
      : H.net.World → Run → H.net.World → Type 0 where
    unsent :
        {w : H.net.World} {run : Run}
        → run.status ≡ run_error
        → Course passphrase env w run (H.net.now w).1
    direct :
        {w v : H.net.World} {run : Run}
        → env.tunnel_type ≡ tunnel_none
        → Steps H.net default_route (endpoint H env) w v
        → Course passphrase env w run v
    unconnected :
        {w : H.net.World} {run : Run} (tun : Tun H) {e : String}
        → build_tunnel H passphrase env ≡ ok (some tun)
        → (H.tunnels.connect tun w).0 ≡ some e
        → run.status ≡ run_error
        → run.err ≡ "tunnel connect: " <> e
        → Course passphrase env w run (H.net.now (H.tunnels.connect tun w).2).1
    tunnelled :
        {w v : H.net.World} {run : Run} (tun : Tun H)
        → build_tunnel H passphrase env ≡ ok (some tun)
        → (H.tunnels.connect tun w).0 ≡ none
        → Steps H.net
            (route_of H (H.tunnels.connect tun w).1)
            (endpoint H env)
            (H.tunnels.connect tun w).2
            v
        → Course passphrase env w run (H.tunnels.disconnect (H.tunnels.connect tun w).1 v).2

  -- A run that has not ended says nothing yet.
  abbrev Went : String → Environment → Option Run × Sys H → H.net.World → Type 0
  Went passphrase env (none, t) w = Unit
  Went passphrase env (some run, t) w = Course passphrase env w run t.world

  fail_run-Went :
      (passphrase : String) (env : Environment) (run : Run) (message : String) (s : Sys H)
      → Went passphrase env (fail_run H run message s) s.world
  unfolding fail_run fail
  fail_run-Went passphrase env run message s = unsent refl

  -- A tunnel that is built is a tunnel.
  some_tunnel : (m : Outcome (Tun H)) → (m >>= λ t. ok (some t)) ≢ ok none
  some_tunnel (ok t) h = cc h
  some_tunnel (err e) h = cc h
  some_tunnel hang h = cc h

  first_case :
      (a b c : Bool) (m n : Outcome (Tun H)) (e : String)
      → (if a
          then ok none
          else if b
          then (m >>= λ t. ok (some t))
          else if c
          then (n >>= λ t. ok (some t))
          else err e)
        ≡ ok none
      → a ≡ true
  first_case true b c m n e h = refl
  first_case false true c m n e h = absurd (some_tunnel m h)
  first_case false false true m n e h = absurd (some_tunnel n h)
  first_case false false false m n e h = cc h

  no_tunnel :
      (passphrase : String) (env : Environment)
      → build_tunnel H passphrase env ≡ ok none
      → env.tunnel_type ≡ tunnel_none
  unfolding build_tunnel
  no_tunnel passphrase env h = (eq_iff env.tunnel_type tunnel_none).0 (
      first_case (env.tunnel_type == tunnel_none) (env.tunnel_type == tunnel_ssh)
        (env.tunnel_type == tunnel_wireguard) (build_ssh H passphrase env.ssh)
        (build_wireguard H passphrase env.wireguard) _ h)

  module _ (fuel : ℕ) (cfg : Config) (passphrase script : String) (variables : List NameValue)
      (env : Environment) (run : Run) where
    direct-Went :
        (x : Option Run × Sys H) (w : H.net.World)
        → env.tunnel_type ≡ tunnel_none
        → Steps H.net default_route (endpoint H env) w x.1.world
        → Went passphrase env x w
    direct-Went (none, t) w e steps = tt
    direct-Went (some done, t) w e steps = direct e steps

    disconnect-Went :
        (tun : Tun H) (x : Option Run × Sys H) (w : H.net.World)
        → build_tunnel H passphrase env ≡ ok (some tun)
        → (H.tunnels.connect tun w).0 ≡ none
        → Steps H.net
            (route_of H (H.tunnels.connect tun w).1)
            (endpoint H env)
            (H.tunnels.connect tun w).2
            x.1.world
        → Went passphrase env (disconnect H (H.tunnels.connect tun w).1 x) w
    unfolding disconnect
    disconnect-Went tun (none, t) w built connected steps = tt
    disconnect-Went tun (some done, t) w built connected steps = tunnelled tun built connected steps

    through-Went :
        (password : String) (tun : Tun H) (s : Sys H) (o : Option String)
        → build_tunnel H passphrase env ≡ ok (some tun)
        → (H.tunnels.connect tun s.world).0 ≡ o
        → Went passphrase env
            (through H fuel cfg script variables env password run
              (o, (H.tunnels.connect tun s.world).1)
              (record s { world = (H.tunnels.connect tun s.world).2 }))
            s.world
    unfolding through fail_run fail
    through-Went password tun s none built connected =
        disconnect-Went tun _ s.world built connected (
          with_client-Steps H fuel cfg script variables run env password
            (route_of H (H.tunnels.connect tun s.world).1)
            (record s { world = (H.tunnels.connect tun s.world).2 }))
    through-Went password tun s (some e) built failed = unconnected tun built failed refl refl

    with_tunnel-Went :
        (password : String) (x : Outcome (Option (Tun H))) (s : Sys H)
        → build_tunnel H passphrase env ≡ x
        → Went passphrase env (with_tunnel H fuel cfg script variables env password run x s) s.world
    unfolding with_tunnel
    with_tunnel-Went password (ok none) s e =
        direct-Went _ s.world (no_tunnel passphrase env e)
          (with_client-Steps H fuel cfg script variables run env password default_route s)
    with_tunnel-Went password (ok (some tun)) s e = through-Went password tun s _ e refl
    with_tunnel-Went password (err m) s e = fail_run-Went passphrase env run m s
    with_tunnel-Went password hang s e = tt

    with_password-Went :
        (x : Outcome String) (s : Sys H)
        → Went passphrase env
            (with_password H fuel cfg passphrase script variables env run x s)
            s.world
    unfolding with_password
    with_password-Went (ok password) s =
        with_tunnel-Went password (build_tunnel H passphrase env) s refl
    with_password-Went (err m) s =
        fail_run-Went passphrase env run ("decrypt BECS password: " <> m) s
    with_password-Went hang s = tt

  ended-Went :
      (passphrase name : String) (env : Environment) (x : Option Run × Sys H) (w : H.net.World)
      → Done name x.0
      → Went passphrase env x w
      → (run : Run) × (x.0 ≡ some run) × Course passphrase env w run x.1.world
  ended-Went passphrase name env (none, t) w d c = absurd d
  ended-Went passphrase name env (some run, t) w d c = (run, refl, c)

-- If polling and the set-up of ciphers end, then executeRun returns a run, and once it has read
-- the clock, its effect on the world is one of four. The run failed, and only the clock was
-- read. Or its environment has no tunnel, and nothing was done but to read the clock, to wait,
-- and to send requests to that environment's endpoint directly. Or its tunnel did not connect,
-- after which only the clock was read, and the run failed with the tunnel's error. Or the tunnel
-- connected, the requests went to the environment's endpoint, by the tunnel's dialer if it has
-- one, and the last thing done was to disconnect the tunnel.
pub execute_run-Course :
    (H : Host) (fuel : ℕ) (cfg : Config) (passphrase script : String) (variables : List NameValue)
    (env : Environment) (s : Sys H)
    → IsTimely H fuel
    → (run : Run) × ((execute_run H fuel cfg passphrase script variables env s).0 ≡ some run)
      × Course H passphrase env
          (H.net.now s.world).1
          run
          (execute_run H fuel cfg passphrase script variables env s).1.world
unfolding execute_run
execute_run-Course H fuel cfg passphrase script variables env s timely =
    ended-Went H passphrase env.name env _ _
      (execute_run-Done H fuel cfg passphrase script variables env s timely)
      (with_password-Went H fuel cfg passphrase script variables env (begin_run env.name _)
        (decrypt H.ciphers env.password passphrase) _)
