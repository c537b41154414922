-- ===== src/Web/Routes/Reached.antt =====
-- internal/web: what holds of the application over any requests, one after the other.
use tcl_script_runner.Prelude.{ℕ, String, Option, none, some, List, [], ◌∷◌}
use tcl_script_runner.Runner.Host.{Host, Sys}
use tcl_script_runner.Web.App.{Services, App, Handled}
use tcl_script_runner.Web.Environments.Sound.{IsSound, Sound, IsRandom}
use tcl_script_runner.Web.Environments.Sound.Handlers.{
  create_environment-Sound, update_environment-Sound, delete_environment-Sound,
}
use tcl_script_runner.Web.Routes.{
  Handler, dashboard, list_environments, new_environment_form, create_environment,
  edit_environment_form, update_environment, delete_environment, list_jobs, job_detail,
  download_run, api_monitor, api_log_fragment, api_log_clear, status_fragment, run_job, Route,
  Request, handle, serve, find_route, routes, path_values, unrouted,
}
use tcl_script_runner.Web.Routes.Answers.{
  Returns, show_jobs_answers, show_job_answers, download_run_answers, show_dashboard_answers,
  list_environments_answers, new_environment_form_answers, edit_environment_form_answers,
  show_monitor_answers, api_log_answers, status_answers, api_log_clear-Sound, unrouted_answers,
}
use tcl_script_runner.Web.Routes.Running.{start_job-Sound}

module _ (H : Host) (V : Services H) (fuel : ℕ) (R : Returns H V fuel) where
  module _ (a : App H) (k : IsSound a) (s : Sys H) where
    module _ (q : Request) (random : IsRandom q.draws) where
      handle-Sound : (h : Handler) (vs : List String) → Sound (handle H V fuel h vs q a s)
      unfolding handle
      handle-Sound dashboard vs = (k, show_dashboard_answers H V fuel R a s)
      handle-Sound list_environments vs = (k, list_environments_answers H V fuel R q.msg a)
      handle-Sound new_environment_form vs = (k, new_environment_form_answers H V fuel R a)
      handle-Sound create_environment vs =
          create_environment-Sound H V R.trusts a k s q.draws random q.form q.bad_form
      handle-Sound edit_environment_form (name ∷ vs) =
          (k, edit_environment_form_answers H V fuel R name a)
      handle-Sound update_environment (name ∷ vs) =
          update_environment-Sound H V R.trusts a k s q.draws random q.form name q.bad_form
      handle-Sound delete_environment (name ∷ vs) = delete_environment-Sound H V R.trusts a k s name
      handle-Sound list_jobs vs = (k, show_jobs_answers H V fuel R a s)
      handle-Sound job_detail (id ∷ vs) = (k, show_job_answers H V fuel R id a s)
      handle-Sound download_run (id ∷ env ∷ vs) = (k, download_run_answers H V fuel R id env a s)
      handle-Sound api_monitor vs = (k, show_monitor_answers H V fuel R a)
      handle-Sound api_log_fragment vs = (k, api_log_answers H V fuel R s)
      handle-Sound api_log_clear vs = api_log_clear-Sound H V fuel R a s k
      handle-Sound status_fragment vs = (k, status_answers H V fuel R a)
      handle-Sound run_job vs = start_job-Sound H V fuel R a k s q.bad_form q.form
      handle-Sound edit_environment_form [] = (k, λ e. cc e)
      handle-Sound update_environment [] = (k, λ e. cc e)
      handle-Sound delete_environment [] = (k, λ e. cc e)
      handle-Sound job_detail [] = (k, λ e. cc e)
      handle-Sound download_run [] = (k, λ e. cc e)
      handle-Sound download_run (id ∷ []) = (k, λ e. cc e)

      routed-Sound :
          (path : List String) (o : Option Route)
          → Sound (elim o as (λ _. Handled H) [
            | none ↦ (unrouted path, a, s)
            | some r ↦ handle H V fuel r.handler (path_values r.path path) q a s
          ])
      routed-Sound path none = (k, unrouted_answers H V fuel R path)
      routed-Sound path (some r) = handle-Sound r.handler (path_values r.path path)

      pub serve-Sound :
          (method : String) (path : List String) → Sound (serve H V fuel method path q a s)
      unfolding serve
      serve-Sound method path = routed-Sound path (find_route routes method path)

module _ (H : Host) (V : Services H) (fuel : ℕ) where
  -- What the requests that are served one after the other make of the application.
  pub data Reached (a : App H) (s : Sys H) : App H → Sys H → Type 0 where
    start : Reached a s a s
    next :
        {b : App H} {t : Sys H} (method : String) (path : List String) (q : Request)
        → IsRandom q.draws
        → Reached a s b t
        → Reached a s (serve H V fuel method path q b t).1 (serve H V fuel method path q b t).2

module _ (H : Host) (V : Services H) (fuel : ℕ) (R : Returns H V fuel) where
  -- If the calls of the libraries return, the ciphers are lawful, polling ends with the fuel at
  -- hand, and the random source gives what is asked for or an error, then from a sound
  -- application on, whatever is requested, one request after the other, the application stays
  -- sound: the names differ, every credential that is set decrypts under the passphrase, every
  -- page has its template, and the runner is idle and has the application's directory.
  pub Reached-IsSound :
      (a : App H) (s : Sys H) {b : App H} {t : Sys H}
      → IsSound a
      → Reached H V fuel a s b t
      → IsSound b
  Reached-IsSound a s k start = k
  Reached-IsSound a s k (next {b} {t} method path q random r) =
      (serve-Sound H V fuel R b (Reached-IsSound a s k r) t q random method path).0
