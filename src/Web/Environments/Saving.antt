-- ===== src/Web/Environments/Saving.antt =====
-- internal/web/handlers.go: what the two handlers that change an environment do in the end.
use tcl_script_runner.Prelude.{
  String, Bool, true, false, ◌≡◌, ◌≢◌, ◌↔◌, refl, sym, ap, if◌then◌else◌,
}
use tcl_script_runner.Outcome.{Outcome, ok, err, hang}
use tcl_script_runner.Config.{Config, Environment}
use tcl_script_runner.Config.Files.{save}
use tcl_script_runner.Runner.Host.{Host, Sys}
use tcl_script_runner.Web.App.{
  Services, App, Handled, Page, page_name, page, has, redirect, failure, render,
}
use tcl_script_runner.Web.Environments.{with_cfg, saved, changed}

-- A handler has put a configuration in place of the old one and saved it, and answers by the URL if
-- the save succeeds, and only then.
pub record Changed (H : Host) (V : Services H) (url : String) (cfg : Config) (a : App H) (s : Sys H)
    (x : Handled H) : Type 0 where
  pub app : x.1 ≡ with_cfg H a cfg
  pub disk : x.2.disk ≡ (save H.os V.yaml cfg s.disk).1
  pub answer : (x.0 ≡ redirect url) ↔ ((save H.os V.yaml cfg s.disk).0 ≡ ok tt)

module _ (H : Host) where
  by_has :
      (b : Bool) (p : Page) (m url : String) → (if b then page p else failure 500 m) ≢ redirect url
  by_has true p m url h = cc h
  by_has false p m url h = cc h

  render-ne-redirect : (a : App H) (p : Page) (url : String) → render H a p ≢ redirect url
  unfolding render
  render-ne-redirect a p url = by_has (has (page_name p) a.tmpls) p _ url

module _ (H : Host) (V : Services H) where
  module _ (is_new : Bool) (env : Environment) (url : String) (a : App H) (s : Sys H) where
    saved-Changed :
        (cfg : Config) (o : Outcome (Unit {0}) × H.os.State)
        → save H.os V.yaml cfg s.disk ≡ o
        → Changed H V url cfg a s (saved H V is_new env url (with_cfg H a cfg) s o)
    unfolding saved
    saved-Changed cfg (ok tt, d) e = record {
      app = refl;
      disk = ap (λ x. x.1) (sym e);
      answer = (λ q. ap (λ x. x.0) e, λ q. refl);
    }
    saved-Changed cfg (err m, d) e = record {
      app = refl;
      disk = ap (λ x. x.1) (sym e);
      answer = (λ q. absurd (render-ne-redirect H _ _ url q), λ q. cc (q, e));
    }
    saved-Changed cfg (hang, d) e = record {
      app = refl;
      disk = ap (λ x. x.1) (sym e);
      answer = (λ q. cc q, λ q. cc (q, e));
    }

    pub changed-Changed :
        (o : Outcome (Unit {0}) × Config)
        → o.0 ≡ ok tt
        → Changed H V url o.1 a s (changed H V is_new env url a s o)
    unfolding changed
    changed-Changed (ok tt, cfg) q = saved-Changed cfg (save H.os V.yaml cfg s.disk) refl
    changed-Changed (err m, cfg) q = cc q
    changed-Changed (hang, cfg) q = cc q
