-- ===== src/Web/Routes/Running.antt =====
-- internal/web/handlers.go: `runJob`, against what holds between two requests.
use mathlib.Core.Path.{subst}
use tcl_script_runner.Prelude.{
  ℕ, String, Bool, true, false, List, [], ◌∷◌, ◌≡◌, refl, sym, ◌∙◌, if◌then◌else◌,
}
use tcl_script_runner.Outcome.{ok, err, hang}
use tcl_script_runner.Config.Crud.Lookup.{NamesDiffer}
use tcl_script_runner.Runner.Host.{Host, Sys}
use tcl_script_runner.Runner.Jobs.{Runner, Answer, rejected, completed, unfinished, run_job}
use tcl_script_runner.Runner.Jobs.Order.{Answered, run_job-Answered, selected}
use tcl_script_runner.Runner.Jobs.Returns.{
  SaveEnds, run_job-SaveEnds, SameRunner, run_job-SameRunner,
}
use tcl_script_runner.Web.Form.{Form, values}
use tcl_script_runner.Web.App.{Services, App, Handled, redirect}
use tcl_script_runner.Web.Environments.Opened.{AllOpenable}
use tcl_script_runner.Web.Environments.Sound.{IsSound, Sound}
use tcl_script_runner.Web.Jobs.{variables_of, started, start_job}
use tcl_script_runner.Web.Routes.Answers.{Returns}

module _ (H : Host) (V : Services H) (fuel : ℕ) (R : Returns H V fuel) where
  module _ (a : App H) (k : IsSound a) (s : Sys H) where
    with_run :
        (r : Runner H)
        → r.busy ≡ false
        → SameRunner H a.run (unfinished, r, s)
        → IsSound (record a { run = r })
    with_run r idle (c, d) = record {
      differ = subst (λ cfg. NamesDiffer cfg.environments) (sym c) k.differ;
      openable =
          subst (λ cfg. AllOpenable H.ciphers a.passphrase cfg.environments) (sym c) k.openable;
      pages = k.pages;
      idle = idle;
      dir = d ∙ k.dir;
    }

    started-Sound :
        (names : List String) (form : Form) (x : Answer H × Runner H × Sys H)
        → Answered H fuel "batch_accounting.tcl" (variables_of form) names x
        → SaveEnds H x
        → SameRunner H a.run x
        → Sound (started H a x)
    unfolding started
    started-Sound names form (rejected m, r, t) h e w = absurd h
    started-Sound names form (unfinished, r, t) h e w = absurd h
    started-Sound names form (completed job (ok done), r, t) (report, idle) e w =
        (with_run r idle w, λ q. cc q)
    started-Sound names form (completed job (err m), r, t) (report, idle) e w =
        (with_run r idle w, λ q. cc q)
    started-Sound names form (completed job hang, r, t) h e w = absurd (e refl)

    ran :
        (form : Form) (name : String) (names : List String)
        → Sound (
            started H a
              (run_job H fuel (name ∷ names) "batch_accounting.tcl" (variables_of form) a.run s))
    ran form name names =
        started-Sound (selected a.run.cfg (name ∷ names)) form _
          (run_job-Answered H fuel "batch_accounting.tcl" (variables_of form) (name ∷ names) a.run s
            k.idle R.timely)
          (run_job-SaveEnds H R.trusts.temps R.marshals fuel (name ∷ names) "batch_accounting.tcl"
            (variables_of form) a.run s)
          (run_job-SameRunner H fuel (name ∷ names) "batch_accounting.tcl" (variables_of form) a.run
            s)

    if_Sound : (b : Bool) (x y : Handled H) → Sound x → Sound y → Sound (if b then x else y)
    if_Sound true x y h g = h
    if_Sound false x y h g = g

    chosen-Sound :
        (form : Form) (names : List String)
        → Sound (elim names as (λ _. Handled H) [
          | [] ↦ (redirect "/?msg=No+environments+selected", a, s)
          | name ∷ names ↦
              if a.run.busy
              then (redirect "/?msg=busy", a, s)
              else started H a
                  (run_job H fuel (name ∷ names) "batch_accounting.tcl" (variables_of form) a.run s)
        ])
    chosen-Sound form [] = (k, λ q. cc q)
    chosen-Sound form (name ∷ names) = if_Sound a.run.busy _ _ (k, λ q. cc q) (ran form name names)

    pub start_job-Sound :
        (bad_form : Bool) (form : Form) → Sound (start_job H fuel bad_form form a s)
    unfolding start_job
    start_job-Sound bad_form form =
        if_Sound bad_form _ _ (k, λ q. cc q) (chosen-Sound form (values "env" form))
