-- ===== src/Web/App.antt =====
-- internal/web/handlers.go: the application that the handlers share, and what they answer.
pub mod Templates
use tcl_script_runner.Prelude.{
  ℕ, String, ◌<>◌, ◌==◌, Bool, true, false, ◌||◌, Option, none, some, List, [], ◌∷◌, if◌then◌else◌,
}
use tcl_script_runner.Prelude.Text.{quote}
use tcl_script_runner.Outcome.{Outcome, ok, err, ◌>>=◌, ◌>>◌}
use tcl_script_runner.Config.{Config, Environment}
use tcl_script_runner.Config.Files.{Yaml}
use tcl_script_runner.Runner.Job.{Job}
use tcl_script_runner.Runner.Host.{Host, Sys}
use tcl_script_runner.Runner.Jobs.{Runner}
use tcl_script_runner.Runner.Listing.{Listing}
use tcl_script_runner.Web.View.{ApiLogView, Formats}

-- The data of a template: one constructor for each page.
pub data Page : Type 0 where
  dashboard : List Environment → List Job → Bool → Page
  environments : List Environment → String → Page
  environment_form : Environment → Bool → String → Page
  job_log : List Job → Page
  job_detail : Job → Page
  api_monitor : Page

abbrev pub page_name : Page → String
page_name (dashboard envs jobs busy) = "dashboard"
page_name (environments envs msg) = "environments"
page_name (environment_form env is_new message) = "environment_form"
page_name (job_log jobs) = "job_log"
page_name (job_detail job) = "job_detail"
page_name api_monitor = "api_monitor"

-- `failure` is `http.Error`, `redirect` is `http.Redirect` with 303, and `waiting` is a handler that
-- has not returned.
pub data Response : Type 0 where
  page : Page → Response
  api_log : List ApiLogView → Response
  status : Bool → Response
  attachment : String → String → Response
  redirect : String → Response
  failure : ℕ → String → Response
  waiting : Response

-- `net/http`, `html/template` and the calls of `os`, `sort` and `time` that the handlers make.
-- `parse_template` gives the error of parsing a page's template, if it has one.
pub record Services (H : Host) : Type 0 where
  pub yaml : Yaml
  pub sort : (Job → Job → Bool) → List Job → List Job
  pub read_jobs : String → H.os.State → Listing
  pub formats : Formats
  pub parse_template : String → Option String

abbrev pub page_names : List String
page_names =
    "dashboard" ∷ "environments" ∷ "environment_form" ∷ "job_log" ∷ "job_detail" ∷ "api_monitor"
    ∷ []

-- `ok` of a map's look-up.
abbrev pub has : String → List String → Bool
has name [] = false
has name (n ∷ names) = n == name || has name names

module _ (H : Host) where
  -- The configuration is the runner's own, to which both hold the same pointer. Of a template only
  -- its name matters.
  pub record App : Type 0 where
    pub run : Runner H
    pub data_dir : String
    pub passphrase : String
    pub tmpls : List String

  -- What a handler gives: its response, and the state that it leaves.
  abbrev pub Handled : Type 0
  Handled = Response × App × Sys H

  unfoldable pub render : App → Page → Response
  render a p =
      if has (page_name p) a.tmpls
      then page p
      else failure 500 ("template not found: " <> page_name p)

module _ (H : Host) (V : Services H) where
  abbrev pub parsed : String → String → Outcome (Unit {0})
  parsed prefix name = elim (V.parse_template name) [ none ↦ ok tt | some e ↦ err (prefix <> e) ]

  load_pages : List String → Outcome (List String)
  load_pages [] = ok []
  load_pages (name ∷ names) = do
    parsed ("parse template " <> quote name <> ": ") name
    rest ← load_pages names
    ok (name ∷ rest)

  unfoldable pub load_templates : Outcome (List String)
  unfolding load_pages
  load_templates = do
    tmpls ← load_pages page_names
    parsed "parse fragments: " "fragments"
    ok tmpls

  unfoldable pub new_app : Runner H → String → String → Outcome (App H)
  unfolding load_templates
  new_app run data_dir passphrase = do
    tmpls ← load_templates
    ok (record { run = run; data_dir = data_dir; passphrase = passphrase; tmpls = tmpls })
