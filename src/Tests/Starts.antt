-- ===== src/Tests/Starts.antt =====
-- A job that is started from the page, over JSON that can write a report without runs, for any list of
-- services.
use tcl_script_runner.Prelude.{
  ℕ, String, ◌==◌, ◌&&◌, Bool, true, false, List, [], ◌∷◌, ◌≡◌, ◌≢◌, refl, arith, eqb, eq_iff,
  if◌then◌else◌,
}
use tcl_script_runner.Prelude.Text.{show_ℕ}
use tcl_script_runner.Outcome.{Outcome, ok, err, hang}
use tcl_script_runner.Os.{IsLawful, replace_file}
use tcl_script_runner.Os.Memory.{memory, create_temp_returns}
use tcl_script_runner.Config.{default_config, new_environment}
use tcl_script_runner.Config.Crud.{find_by_name}
use tcl_script_runner.Becs.Types.{NameValue}
use tcl_script_runner.Becs.Batch.Returns.{poll_returns}
use tcl_script_runner.Runner.Job.{Run, Job, new_job}
use tcl_script_runner.Runner.Host.{Host, Sys}
use tcl_script_runner.Runner.Files.{job_path, save}
use tcl_script_runner.Runner.Files.RoundTrip.{ReadsBack}
use tcl_script_runner.Runner.Execute.Runs.{IsTimely}
use tcl_script_runner.Runner.Jobs.{run_job}
use tcl_script_runner.Runner.Jobs.Order.{selected}
use tcl_script_runner.Web.Form.{Form, values, form_value}
use tcl_script_runner.Web.App.{App, page_names, redirect}
use tcl_script_runner.Web.Jobs.{variables_of, started, start_job}
use tcl_script_runner.Web.Jobs.Starts.{SavesReturn, Ran, start_job-Ran}
use tcl_script_runner.Tests.World.{host, ciphers_set_up}
use tcl_script_runner.Tests.Jobs

abbrev job_of : ℕ → ℕ → String → String → List NameValue → List Run → Job
job_of started_at finished_at id script variables runs = record {
  id = id;
  started_at = started_at;
  finished_at = finished_at;
  script = script;
  variables = variables;
  runs = runs;
}

abbrev var : String → String → NameValue
var name value = record { name = name; value = value }

-- Just the value of the variable is free.
is_report : ℕ → ℕ → String → String → String → Bool
is_report started_at finished_at id script name =
    eqb started_at 1
    && eqb finished_at 2
    && id == "job-1"
    && script == "batch_accounting.tcl"
    && name == "svc_list"

text_of : ℕ → ℕ → String → String → List NameValue → List Run → Outcome String
unfolding is_report
text_of started_at finished_at id script (v ∷ []) [] =
    if is_report started_at finished_at id script v.name then ok v.value else err "not supported"
text_of _ _ _ _ _ _ = err "not supported"

abbrev read_job : String → Job
read_job text = job_of 1 2 "job-1" "batch_accounting.tcl" (var "svc_list" text ∷ []) []

by_test :
    (started_at finished_at : ℕ) (id script name value : String) {text : String}
    → ◌≡◌ {A = Outcome String}
        (if is_report started_at finished_at id script name then ok value else err "not supported")
        (ok text)
    → ◌≡◌ {A = Outcome Job}
        (ok (read_job text))
        (ok (job_of started_at finished_at id script (var name value ∷ []) []))
unfolding is_report
by_test started_at finished_at id script name value h =
    ground (arith, eq_iff id "job-1", eq_iff script "batch_accounting.tcl", eq_iff name "svc_list")

reads_back :
    (started_at finished_at : ℕ) (id script : String) (variables : List NameValue) (runs : List Run)
    {text : String}
    → text_of started_at finished_at id script variables runs ≡ ok text
    → ◌≡◌ {A = Outcome Job}
        (ok (read_job text))
        (ok (job_of started_at finished_at id script variables runs))
unfolding text_of
reads_back started_at finished_at id script (v ∷ []) [] h =
    by_test started_at finished_at id script v.name v.value h
reads_back started_at finished_at id script [] [] h = cc h
reads_back started_at finished_at id script [] (r ∷ rs) h = cc h
reads_back started_at finished_at id script (v ∷ []) (r ∷ rs) h = cc h
reads_back started_at finished_at id script (v ∷ u ∷ us) [] h = cc h
reads_back started_at finished_at id script (v ∷ u ∷ us) (r ∷ rs) h = cc h

if_ok : (b : Bool) (text e : String) → ◌≢◌ {A = Outcome String} (if b then ok text else err e) hang
if_ok true text e h = cc h
if_ok false text e h = cc h

text_of_returns :
    (started_at finished_at : ℕ) (id script : String) (variables : List NameValue) (runs : List Run)
    → text_of started_at finished_at id script variables runs ≢ hang
unfolding text_of
text_of_returns started_at finished_at id script (v ∷ []) [] h =
    if_ok (is_report started_at finished_at id script v.name) _ _ h
text_of_returns started_at finished_at id script [] [] h = cc h
text_of_returns started_at finished_at id script [] (r ∷ rs) h = cc h
text_of_returns started_at finished_at id script (v ∷ []) (r ∷ rs) h = cc h
text_of_returns started_at finished_at id script (v ∷ u ∷ us) [] h = cc h
text_of_returns started_at finished_at id script (v ∷ u ∷ us) (r ∷ rs) h = cc h

unfoldable writer : Host
unfolding text_of
writer = record {
  net = Jobs.H.net;
  tunnels = Jobs.H.tunnels;
  os = Jobs.H.os;
  ciphers = Jobs.H.ciphers;
  format_id = Jobs.H.format_id;
  marshal_job = λ j. text_of j.started_at j.finished_at j.id j.script j.variables j.runs;
  unmarshal_job = λ text. ok (read_job text);
}

writer-ReadsBack : ReadsBack writer
unfolding writer
writer-ReadsBack = record {
  unmarshal-marshal =
      λ j {text} e. reads_back j.started_at j.finished_at j.id j.script j.variables j.runs e;
}

lawful : IsLawful writer.os
unfolding writer
lawful = Jobs.lawful

lasting : (id : String) → writer.os.is_temp (job_path writer "data" id) ≡ false
unfolding writer
lasting = Jobs.lasting

saves : SavesReturn writer
unfolding writer host
saves = record {
  temps = create_temp_returns;
  jobs = λ j. text_of_returns j.started_at j.finished_at j.id j.script j.variables j.runs;
}

timely : IsTimely writer 1
unfolding writer host
timely = record {
  polls = λ batch_id interval s.
      poll_returns writer.net (λ i w. ("context canceled", refl)) 0 batch_id interval s;
  ciphers = ciphers_set_up;
}

abbrev app : App writer
app = record {
  run = record { cfg = Jobs.cfg; data_dir = "data"; passphrase = "pw"; busy = false };
  data_dir = "data";
  passphrase = "pw";
  tmpls = page_names;
}

abbrev at_start : Sys writer
unfolding writer
at_start = record { log = Jobs.start.log; world = Jobs.start.world; disk = Jobs.start.disk }

-- The only environment that is asked for is disabled.
abbrev run_form : Form
run_form = ("env", "south" ∷ []) ∷ ("svc_list", "1,2" ∷ []) ∷ []

chosen : values "env" run_form ≡ "south" ∷ []
unfolding values
chosen = refl

sent : (start_job writer 1 false run_form app at_start).0 ≡ redirect "/jobs/job-1"
unfolding start_job started run_job variables_of values form_value writer host memory save
    replace_file text_of is_report new_job find_by_name default_config new_environment show_ℕ
sent = refl

start_job-Ran_example :
    Ran writer app "batch_accounting.tcl"
      (variables_of run_form)
      (selected Jobs.cfg ("south" ∷ []))
      (run_job writer 1
        ("south" ∷ [])
        "batch_accounting.tcl"
        (variables_of run_form)
        app.run
        at_start)
      (start_job writer 1 false run_form app at_start)
start_job-Ran_example =
    start_job-Ran writer app lawful writer-ReadsBack saves lasting 1 timely run_form at_start
      "south" [] refl refl refl chosen
