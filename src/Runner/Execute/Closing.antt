-- ===== src/Runner/Execute/Closing.antt =====
-- runner.go: what a run leaves open, over the contract of the tunnels.
use tcl_script_runner.Prelude.{ℕ, String, List, ◌≡◌, refl, ◌∙◌}
use tcl_script_runner.Prelude.Int.{ℤ}
use tcl_script_runner.Config.{Config, Environment}
use tcl_script_runner.Becs.Types.{NameValue}
use tcl_script_runner.Becs.Client.{Net, Route}
use tcl_script_runner.Becs.Client.Moves.{Steps, stay, ticked, posted, waited}
use tcl_script_runner.Tunnel.Resources.{Handle}
use tcl_script_runner.Tunnel.Contract.{Releases}
use tcl_script_runner.Runner.Job.{Run}
use tcl_script_runner.Runner.Host.{Host, Sys}
use tcl_script_runner.Runner.Credentials.New.{build_tunnel-IsNew}
use tcl_script_runner.Runner.Execute.{execute_run}
use tcl_script_runner.Runner.Execute.Runs.{IsTimely}
use tcl_script_runner.Runner.Execute.Courses.{
  Course, unsent, direct, unconnected, tunnelled, execute_run-Course,
}

-- The clock, a request and a wait open and close nothing that belongs to a tunnel.
pub record Keeps (N : Net) (live : N.World → List Handle) : Type 0 where
  pub now : (w : N.World) → live (N.now w).1 ≡ live w
  pub post :
      (route : Route) (endpoint body : String) (w : N.World)
      → live (N.post route endpoint body w).1 ≡ live w
  pub wait : (interval : ℤ) (w : N.World) → live (N.wait interval w).1 ≡ live w

module _ (H : Host) (live : H.net.World → List Handle) (K : Keeps H.net live)
    (R : Releases H.tunnels live) where
  live-Steps :
      (route : Route) (endpoint : String) {w v : H.net.World}
      → Steps H.net route endpoint w v
      → live v ≡ live w
  live-Steps route endpoint stay = refl
  live-Steps route endpoint (ticked x) = K.now _ ∙ live-Steps route endpoint x
  live-Steps route endpoint (posted body x) =
      K.post route endpoint body _ ∙ live-Steps route endpoint x
  live-Steps route endpoint (waited interval x) = K.wait interval _ ∙ live-Steps route endpoint x

  live-Course :
      (passphrase : String) (env : Environment) {w v : H.net.World} {run : Run}
      → Course H passphrase env w run v
      → live v ≡ live w
  live-Course passphrase env (unsent failed) = K.now _
  live-Course passphrase env (direct e x) = live-Steps _ _ x
  live-Course passphrase env (unconnected {w} tun built q failed message) =
      K.now _ ∙ R.failed tun w (build_tunnel-IsNew H passphrase env tun built) q
  live-Course passphrase env (tunnelled {w} {v} tun built q x) =
      R.released tun w v (build_tunnel-IsNew H passphrase env tun built) q (live-Steps _ _ x)

  pub live-execute_run :
      (fuel : ℕ) (cfg : Config) (passphrase script : String) (variables : List NameValue)
      (env : Environment) (s : Sys H)
      → IsTimely H fuel
      → live (execute_run H fuel cfg passphrase script variables env s).1.world ≡ live s.world
  live-execute_run fuel cfg passphrase script variables env s timely =
      let (run, ended, course) =
        execute_run-Course H fuel cfg passphrase script variables env s timely in
      live-Course passphrase env course ∙ K.now s.world
