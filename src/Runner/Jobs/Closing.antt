-- ===== src/Runner/Jobs/Closing.antt =====
-- runner.go: what a job leaves open.
use tcl_script_runner.Prelude.{
  ℕ, String, Bool, true, false, Option, none, some, List, [], ◌∷◌, ◌++◌, ◌≡◌, refl, ◌∙◌,
  if◌then◌else◌,
}
use tcl_script_runner.Config.{Environment}
use tcl_script_runner.Config.Crud.{find_by_name}
use tcl_script_runner.Config.Crud.Lookup.{env_of}
use tcl_script_runner.Becs.Types.{NameValue}
use tcl_script_runner.Tunnel.Resources.{Handle}
use tcl_script_runner.Tunnel.Contract.{Releases}
use tcl_script_runner.Runner.Job.{Run, Job}
use tcl_script_runner.Runner.Host.{Host, Sys}
use tcl_script_runner.Runner.Execute.Runs.{IsTimely}
use tcl_script_runner.Runner.Execute.Closing.{Keeps, live-execute_run}
use tcl_script_runner.Runner.Jobs.{
  Runner, Answer, unknown, visit, save_quietly, loop, close_job, run_job,
}

module _ (H : Host) (live : H.net.World → List Handle) (K : Keeps H.net live)
    (R : Releases H.tunnels live) (fuel : ℕ) (timely : IsTimely H fuel) where
  -- Nothing is open beside what was open in `w`.
  abbrev Same : {A : Type 0} → H.net.World → A × Sys H → Type 0
  Same w (x, t) = live t.world ≡ live w

  unknown-Same : (name : String) (s : Sys H) → Same s.world (unknown H name s)
  unfolding unknown
  unknown-Same name s = K.now _ ∙ K.now s.world

  module _ (r : Runner H) where
    executed :
        (job : Job) (x : Option Run × Sys H)
        → live
            (elim x.0 as (λ _. Option Job × Sys H) [
              | none ↦ (none, x.1)
              | some done ↦ (some (record job { runs = job.runs ++ done ∷ [] }), x.1)
            ]).1.world
          ≡ live x.1.world
    executed job (none, t) = refl
    executed job (some run, t) = refl

    visit_if :
        (b : Bool) (w : H.net.World) (x y : Option Job × Sys H)
        → Same w x
        → Same w y
        → Same w (if b then x else y)
    visit_if true w x y p q = p
    visit_if false w x y p q = q

    visit-Same :
        (name : String) (job : Job) (o : Option Environment) (s : Sys H)
        → Same s.world (visit H fuel r name job o s)
    unfolding visit
    visit-Same name job none s = unknown-Same name s
    visit-Same name job (some env) s =
        visit_if env.enabled s.world _ (some job, s)
          (executed job _
            ∙ live-execute_run H live K R fuel r.cfg r.passphrase job.script job.variables env s
                timely)
          refl

    then_Same :
        (w : H.net.World) (x : Option Job × Sys H) (go : Job → Sys H → Option Job × Sys H)
        → Same w x
        → ((job : Job) → Same x.1.world (go job x.1))
        → Same w
            (elim x.0 as (λ _. Option Job × Sys H) [ none ↦ (none, x.1) | some job ↦ go job x.1 ])
    then_Same w (none, t) go e f = e
    then_Same w (some job, t) go e f = f job ∙ e

    loop-Same :
        (names : List String) (job : Job) (s : Sys H) → Same s.world (loop H fuel r names job s)
    unfolding loop save_quietly
    loop-Same [] job s = refl
    loop-Same (name ∷ names) job s =
        then_Same s.world (visit H fuel r name job (env_of (find_by_name r.cfg name)) s)
          (λ job' t. loop H fuel r names job' (save_quietly H r.data_dir job' t))
          (visit-Same name job (env_of (find_by_name r.cfg name)) s)
          (λ job'. loop-Same names job' _)

  close_job-Same :
      (r : Runner H) (w : H.net.World) (x : Option Job × Sys H)
      → Same w x
      → live (close_job H r x).2.world ≡ live w
  unfolding close_job
  close_job-Same r w (none, t) e = e
  close_job-Same r w (some job, t) e = K.now t.world ∙ e

  answer_if :
      (b : Bool) (w : H.net.World) (x y : Answer H × Runner H × Sys H)
      → live x.2.world ≡ live w
      → live y.2.world ≡ live w
      → live (if b then x else y).2.world ≡ live w
  answer_if true w x y p q = p
  answer_if false w x y p q = q

  -- If polling and the set-up of ciphers end, the tunnels keep their contract, and the clock,
  -- the requests and the waits open and close nothing of a tunnel, then after RunJob exactly the
  -- handles are open that were open before.
  pub live-run_job :
      (env_names : List String) (script : String) (variables : List NameValue) (r : Runner H)
      (s : Sys H)
      → live (run_job H fuel env_names script variables r s).2.world ≡ live s.world
  unfolding run_job save_quietly
  live-run_job env_names script variables r s = answer_if r.busy s.world _ _ refl (
      close_job-Same (record r { busy = true }) s.world _
        (loop-Same (record r { busy = true }) env_names _ _ ∙ K.now s.world))
