-- ===== src/Runner/Jobs/Order.antt =====
-- Which runs a job of runner.go has, and in which order.
use mathlib.Core.Path.{subst}
use tcl_script_runner.Prelude.{
  ℕ, String, Bool, true, false, Option, none, some, List, [], ◌∷◌, ◌++◌, append-nil, append_assoc,
  ◌≡◌, refl, sym, ◌∙◌, ap, inl, if◌then◌else◌,
}
use tcl_script_runner.Config.{Config, Environment}
use tcl_script_runner.Config.Crud.{find_by_name}
use tcl_script_runner.Config.Crud.Lookup.{env_of, lookup, get-name}
use tcl_script_runner.Config.Crud.Reference.{env_of-find_by_name}
use tcl_script_runner.Becs.Types.{NameValue}
use tcl_script_runner.Runner.Job.{Run, Job, new_job}
use tcl_script_runner.Runner.Host.{Host, Sys}
use tcl_script_runner.Runner.Execute.{execute_run}
use tcl_script_runner.Runner.Execute.Runs.{IsDone, Done, IsTimely, execute_run-Done}
use tcl_script_runner.Runner.Jobs.{
  Runner, Answer, rejected, completed, unfinished, unknown, visit, save_quietly, loop, close_job,
  run_job,
}

-- A name gets a run if no environment has it, and that run says so, or if its environment is enabled.
abbrev pub picked : String → Option Environment → List String
picked name none = name ∷ []
picked name (some env) = if env.enabled then name ∷ [] else []

pub selected : Config → List String → List String
selected cfg [] = []
selected cfg (name ∷ names) = picked name (lookup cfg name) ++ selected cfg names

abbrev pub AllDone : List String → List Run → Type 0
AllDone [] [] = Unit
AllDone (name ∷ names) (run ∷ runs) = IsDone name run × AllDone names runs
AllDone _ _ = ⊥

-- `job'` is `job` with a run for each of the names.
pub record Extends (job : Job) (names : List String) (job' : Job) : Type 0 where
  pub runs : List Run
  pub appended : job' ≡ record job { runs = job.runs ++ runs }
  pub done : AllDone names runs

AllDone-append :
    (names : List String) (runs : List Run) (names' : List String) (runs' : List Run)
    → AllDone names runs
    → AllDone names' runs'
    → AllDone (names ++ names') (runs ++ runs')
AllDone-append [] [] names' runs' d d' = d'
AllDone-append [] (run ∷ runs) names' runs' d d' = absurd d
AllDone-append (name ∷ names) [] names' runs' d d' = absurd d
AllDone-append (name ∷ names) (run ∷ runs) names' runs' (h, d) d' =
    (h, AllDone-append names runs names' runs' d d')

Extends-refl : (job : Job) → Extends job [] job
Extends-refl job = record {
  runs = [];
  appended = ap {A = List Run} (λ rs. record job { runs = rs }) (sym (append-nil job.runs));
  done = tt;
}

Extends-trans :
    {job job' job'' : Job} {names names' : List String}
    → Extends job names job'
    → Extends job' names' job''
    → Extends job (names ++ names') job''
Extends-trans {job} {names} {names'} x y = record {
  runs = x.runs ++ y.runs;
  appended =
      y.appended
      ∙ ap {A = Job} (λ j. record j { runs = j.runs ++ y.runs }) x.appended
      ∙ ap {A = List Run} (λ rs. record job { runs = rs }) (append_assoc job.runs x.runs y.runs);
  done = AllDone-append names x.runs names' y.runs x.done y.done;
}

abbrev After : Job → List String → Option Job → Type 0
After job names none = ⊥
After job names (some job') = Extends job names job'

one_run :
    (job : Job) (name : String) (run : Run)
    → IsDone name run
    → Extends job (name ∷ []) (record job { runs = job.runs ++ run ∷ [] })
one_run job name run d = record { runs = run ∷ []; appended = refl; done = (d, tt) }

module _ (H : Host) (fuel : ℕ) (r : Runner H) (timely : IsTimely H fuel) where
  executed :
      (name : String) (job : Job) (x : Option Run × Sys H)
      → Done name x.0
      → After job
          (name ∷ [])
          (elim x.0 as (λ _. Option Job × Sys H) [
            | none ↦ (none, x.1)
            | some done ↦ (some (record job { runs = job.runs ++ done ∷ [] }), x.1)
          ]).0
  executed name job (none, s) d = absurd d
  executed name job (some run, s) d = one_run job name run d

  by_test :
      (b : Bool) (name : String) (job : Job) (x y : Option Job × Sys H)
      → After job (name ∷ []) x.0
      → After job [] y.0
      → After job (if b then name ∷ [] else []) (if b then x else y).0
  by_test true name job x y hx hy = hx
  by_test false name job x y hx hy = hy

  visit-After :
      (name : String) (job : Job) (o : Option Environment) (s : Sys H)
      → ((env : Environment) → o ≡ some env → env.name ≡ name)
      → After job (picked name o) (visit H fuel r name job o s).0
  unfolding visit unknown
  visit-After name job none s named =
      one_run job name _ (record { environment = refl; status = inl (refl, refl) })
  visit-After name job (some env) s named =
      by_test env.enabled name job _ (some job, s)
        (executed name job _ (
          subst
            (λ n. Done n (execute_run H fuel r.cfg r.passphrase job.script job.variables env s).0)
            (named env refl)
            (execute_run-Done H fuel r.cfg r.passphrase job.script job.variables env s timely)))
        (Extends-refl job)

  visit_name-After :
      (name : String) (job : Job) (s : Sys H)
      → After job
          (picked name (lookup r.cfg name))
          (visit H fuel r name job (env_of (find_by_name r.cfg name)) s).0
  visit_name-After name job s =
      let e = env_of-find_by_name r.cfg name in
      subst
        (λ o.
          After job (picked name o)
            (visit H fuel r name job (env_of (find_by_name r.cfg name)) s).0)
        e
        (visit-After name job (env_of (find_by_name r.cfg name)) s
          (λ env h. get-name name r.cfg.environments (sym e ∙ h)))

  then_After :
      (job : Job) (names names' : List String) (x : Option Job × Sys H)
      (go : Job → Sys H → Option Job × Sys H)
      → After job names x.0
      → ((job' : Job) → After job' names' (go job' x.1).0)
      → After job
          (names ++ names')
          (elim x.0 as (λ _. Option Job × Sys H) [ none ↦ (none, x.1) | some job' ↦ go job' x.1 ]).0
  then_After job names names' (none, s) go h ih = absurd h
  then_After job names names' (some job', s) go h ih = onwards (go job' s).0 (ih job')
    where
      onwards : (o : Option Job) → After job' names' o → After job (names ++ names') o
      onwards none k = absurd k
      onwards (some job'') k = Extends-trans h k

  loop-After :
      (names : List String) (job : Job) (s : Sys H)
      → After job (selected r.cfg names) (loop H fuel r names job s).0
  unfolding loop selected
  loop-After [] job s = Extends-refl job
  loop-After (name ∷ names) job s =
      then_After job (picked name (lookup r.cfg name)) (selected r.cfg names) _
        (λ job' t. loop H fuel r names job' (save_quietly H r.data_dir job' t))
        (visit_name-After name job s) (λ job'. loop-After names job' _)

-- What a job that `RunJob` returns holds: what was asked for, and a run for each selected name.
pub record IsReport (script : String) (variables : List NameValue) (names : List String) (job : Job)
    : Type 0 where
  pub script_kept : job.script ≡ script
  pub variables_kept : job.variables ≡ variables
  pub runs_done : AllDone names job.runs

module _ (H : Host) (fuel : ℕ) (script : String) (variables : List NameValue) where
  abbrev pub Answered : List String → Answer H × Runner H × Sys H → Type 0
  Answered names (rejected m, r, s) = ⊥
  Answered names (completed job e, r, s) = IsReport script variables names job × (r.busy ≡ false)
  Answered names (unfinished, r, s) = ⊥

  report :
      (job job' : Job) (names : List String)
      → job.runs ≡ []
      → job.script ≡ script
      → job.variables ≡ variables
      → Extends job names job'
      → IsReport script variables names job'
  report job job' names e f g x = record {
    script_kept = ap (λ j. j.script) x.appended ∙ f;
    variables_kept = ap (λ j. j.variables) x.appended ∙ g;
    runs_done =
        subst (AllDone names)
          (sym (ap (λ j. j.runs) x.appended ∙ ap {A = List Run} (λ rs. rs ++ x.runs) e)) x.done;
  }

  close_job-Answered :
      (r : Runner H) (job : Job) (names : List String) (x : Option Job × Sys H)
      → job.runs ≡ []
      → job.script ≡ script
      → job.variables ≡ variables
      → After job names x.0
      → Answered names (close_job H r x)
  unfolding close_job
  close_job-Answered r job names (none, s) e f g h = absurd h
  close_job-Answered r job names (some job', s) e f g h =
      let p = report job job' names e f g h in
      (
        record {
          script_kept = p.script_kept;
          variables_kept = p.variables_kept;
          runs_done = p.runs_done;
        },
        refl,
      )

  if_idle :
      (b : Bool) (names : List String) (x y : Answer H × Runner H × Sys H)
      → b ≡ false
      → Answered names y
      → Answered names (if b then x else y)
  if_idle false names x y h a = a
  if_idle true names x y h a = cc h

  -- If polling and the set-up of ciphers end, an idle runner answers with a job of the script
  -- and the variables that it was given, which has one run for each selected name, in the order
  -- in which they were asked for, that failed and has no output, or finished or was stopped and
  -- has no error; and it is idle again.
  pub run_job-Answered :
      (env_names : List String) (r : Runner H) (s : Sys H)
      → r.busy ≡ false
      → IsTimely H fuel
      → Answered (selected r.cfg env_names) (run_job H fuel env_names script variables r s)
  unfolding run_job new_job
  run_job-Answered env_names r s idle timely = if_idle r.busy (selected r.cfg env_names) _ _ idle (
      close_job-Answered (record r { busy = true }) _ (selected r.cfg env_names)
        (loop H fuel (record r { busy = true }) env_names _ _) refl refl refl
        (loop-After H fuel (record r { busy = true }) timely env_names _ _))

-- A busy runner refuses a job, and nothing changes.
pub run_job_busy :
    (H : Host) (fuel : ℕ) (env_names : List String) (script : String) (variables : List NameValue)
    (r : Runner H) (s : Sys H)
    → r.busy ≡ true
    → run_job H fuel env_names script variables r s
      ≡ (rejected "a job is already running; wait for it to complete", r, s)
unfolding run_job
run_job_busy H fuel env_names script variables r s busy = rw busy
