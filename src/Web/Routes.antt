-- ===== src/Web/Routes.antt =====
-- internal/web/routes.go: the requests that the server takes, and the handler of each.
pub mod Patterns
pub mod Answers
pub mod Running
pub mod Reached
use tcl_script_runner.Prelude.{
  ℕ, String, ◌==◌, Bool, true, false, ◌&&◌, ◌||◌, Option, none, some, List, [], ◌∷◌, if◌then◌else◌,
}
use tcl_script_runner.Runner.Host.{Host, Sys}
use tcl_script_runner.Web.Form.{Form}
use tcl_script_runner.Web.App.{Services, App, Handled, Response, failure}
use tcl_script_runner.Web.Environments
use tcl_script_runner.Web.Environments.{Draws}
use tcl_script_runner.Web.Jobs
use tcl_script_runner.Web.Jobs.{show_job, start_job, show_dashboard, show_jobs}
use tcl_script_runner.Web.Monitor
use tcl_script_runner.Web.Monitor.{show_monitor}

-- A segment of a pattern: a word, or a wildcard as in `{name}`.
pub data Segment : Type 0 where
  word : String → Segment
  wildcard : Segment

-- The handlers that `RegisterRoutes` registers, in its order.
pub data Handler : Type 0 where
  dashboard : Handler
  list_environments : Handler
  new_environment_form : Handler
  create_environment : Handler
  edit_environment_form : Handler
  update_environment : Handler
  delete_environment : Handler
  list_jobs : Handler
  job_detail : Handler
  download_run : Handler
  api_monitor : Handler
  api_log_fragment : Handler
  api_log_clear : Handler
  status_fragment : Handler
  run_job : Handler

pub record Route : Type 0 where
  pub method : String
  pub path : List Segment
  pub handler : Handler

abbrev get : List Segment → Handler → Route
get path handler = record { method = "GET"; path = path; handler = handler }

abbrev post : List Segment → Handler → Route
post path handler = record { method = "POST"; path = path; handler = handler }

unfoldable pub routes : List Route
routes =
    get [] dashboard
    ∷ get (word "environments" ∷ []) list_environments
    ∷ get (word "environments" ∷ word "new" ∷ []) new_environment_form
    ∷ post (word "environments" ∷ []) create_environment
    ∷ get (word "environments" ∷ wildcard ∷ word "edit" ∷ []) edit_environment_form
    ∷ post (word "environments" ∷ wildcard ∷ word "edit" ∷ []) update_environment
    ∷ post (word "environments" ∷ wildcard ∷ word "delete" ∷ []) delete_environment
    ∷ get (word "jobs" ∷ []) list_jobs
    ∷ get (word "jobs" ∷ wildcard ∷ []) job_detail
    ∷ get (word "jobs" ∷ wildcard ∷ word "runs" ∷ wildcard ∷ word "download" ∷ []) download_run
    ∷ get (word "api-monitor" ∷ []) api_monitor
    ∷ get (word "api-log" ∷ []) api_log_fragment
    ∷ post (word "api-log" ∷ word "clear" ∷ []) api_log_clear
    ∷ get (word "status" ∷ []) status_fragment
    ∷ post (word "run" ∷ []) run_job
    ∷ []

-- Whether the segments of a clean path match a pattern.
unfoldable pub matches : List Segment → List String → Bool
matches [] [] = true
matches [] (s ∷ ss) = false
matches (p ∷ ps) [] = false
matches (word w ∷ ps) (s ∷ ss) = s == w && matches ps ss
matches (wildcard ∷ ps) (s ∷ ss) = matches ps ss

-- `r.PathValue`, by the place of the wildcard.
unfoldable pub path_values : List Segment → List String → List String
path_values [] ss = []
path_values (p ∷ ps) [] = []
path_values (word w ∷ ps) (s ∷ ss) = path_values ps ss
path_values (wildcard ∷ ps) (s ∷ ss) = s ∷ path_values ps ss

-- A pattern for GET also takes HEAD.
abbrev pub takes : String → String → Bool
takes pattern method = pattern == method || pattern == "GET" && method == "HEAD"

unfoldable pub accepts : Route → String → List String → Bool
unfolding matches
accepts r method path = takes r.method method && matches r.path path

unfoldable pub find_route : List Route → String → List String → Option Route
unfolding accepts
find_route [] method path = none
find_route (r ∷ rs) method path =
    if accepts r method path then some r else find_route rs method path

-- Whether some route has the path, by whatever method.
known_path : List Route → List String → Bool
unfolding matches
known_path [] path = false
known_path (r ∷ rs) path = matches r.path path || known_path rs path

-- The answer of `http.ServeMux` to a request that no route takes.
pub unrouted : List String → Response
unfolding known_path
unrouted path =
    if known_path routes path
    then failure 405 "Method Not Allowed"
    else failure 404 "404 page not found"

-- What a request brings beside its method and its path: whether its form fails to parse, the form,
-- its query's `msg`, and what the random source gives while it is served.
pub record Request : Type 0 where
  pub bad_form : Bool
  pub form : Form
  pub msg : String
  pub draws : Draws

module _ (H : Host) (V : Services H) where
  -- A handler that changes nothing.
  abbrev pub reading : Response → App H → Sys H → Handled H
  reading response a s = (response, a, s)

  -- A handler with its path values; it is called with as many as its pattern has.
  unfoldable pub handle : ℕ → Handler → List String → Request → App H → Sys H → Handled H
  handle fuel dashboard _ q a s = reading (show_dashboard H V a s) a s
  handle fuel list_environments _ q a s = reading (Environments.list_environments H q.msg a) a s
  handle fuel new_environment_form _ q a s = reading (Environments.new_environment_form H a) a s
  handle fuel create_environment _ q a s =
      Environments.create_environment H V q.draws q.bad_form q.form a s
  handle fuel edit_environment_form (name ∷ _) q a s =
      reading (Environments.edit_environment_form H name a) a s
  handle fuel update_environment (name ∷ _) q a s =
      Environments.update_environment H V q.draws name q.bad_form q.form a s
  handle fuel delete_environment (name ∷ _) q a s = Environments.delete_environment H V name a s
  handle fuel list_jobs _ q a s = reading (show_jobs H V a s) a s
  handle fuel job_detail (id ∷ _) q a s = reading (show_job H id a s) a s
  handle fuel download_run (id ∷ env ∷ _) q a s = reading (Jobs.download_run H id env a s) a s
  handle fuel api_monitor _ q a s = reading (show_monitor H a) a s
  handle fuel api_log_fragment _ q a s = reading (Monitor.api_log_fragment H V s) a s
  handle fuel api_log_clear _ q a s = Monitor.api_log_clear H V a s
  handle fuel status_fragment _ q a s = reading (Monitor.status_fragment H a) a s
  handle fuel run_job _ q a s = start_job H fuel q.bad_form q.form a s
  handle fuel _ _ q a s = reading (failure 404 "404 page not found") a s

  unfoldable pub serve : ℕ → String → List String → Request → App H → Sys H → Handled H
  unfolding find_route handle path_values
  serve fuel method path q a s = elim (find_route routes method path) [
    | none ↦ (unrouted path, a, s)
    | some r ↦ handle fuel r.handler (path_values r.path path) q a s
  ]
