-- ===== src/Tests/Web.antt =====
-- Requests to the server of handlers.go and routes.go, over the host of the jobs.
use tcl_script_runner.Prelude.{
  inl, inr, String, ◌==◌, false, none, some, [], ◌∷◌, ◌≡◌, ◌≢◌, refl, arith, if◌then◌else◌,
}
use tcl_script_runner.Prelude.Int.{pos, show_ℤ}
use tcl_script_runner.Prelude.Text.{show_ℕ, trim_space}
use tcl_script_runner.Prelude.Utf8.{of_bytes, to_bytes}
use tcl_script_runner.Prelude.Base64.{encode, decode}
use tcl_script_runner.Outcome.{ok, hang}
use tcl_script_runner.Os.Memory.{memory, create_temp_returns}
use tcl_script_runner.Config.{Config, Environment, default_config, new_environment}
use tcl_script_runner.Config.Crud.{add, update}
use tcl_script_runner.Config.Crud.Lookup.{lookup, get, NamesDiffer}
use tcl_script_runner.Config.Crypto.{IsLawful, decrypt, new_gcm, decode_blob, open_box}
use tcl_script_runner.Config.Files.{load, load_abs, parse_config}
use tcl_script_runner.Runner.Job.{Job}
use tcl_script_runner.Runner.Listing.{absent}
use tcl_script_runner.Web.Form.{Form, values, form_value, int_field, parse_labels}
use tcl_script_runner.Web.Form.Labels.{IsMap, label, last_row, parse_labels-last_row}
use tcl_script_runner.Web.Form.Numbers.{int_field-show_ℤ}
use tcl_script_runner.Web.App.{Services, App, Handled, page_names}
use tcl_script_runner.Web.Environments.{
  Draws, no_environment, create_environment, update_environment,
}
use tcl_script_runner.Web.Environments.Secrets.{IsFresh}
use tcl_script_runner.Web.Environments.Stored.{
  Stored, create_environment-Stored, update_environment-Stored,
}
use tcl_script_runner.Web.Environments.Saving.{Changed}
use tcl_script_runner.Web.Environments.Opened.{AllOpenable}
use tcl_script_runner.Web.Environments.Sound.{IsSound, IsRandom, Trusts}
use tcl_script_runner.Web.Routes.{Request, serve}
use tcl_script_runner.Web.Routes.Answers.{Returns}
use tcl_script_runner.Web.Routes.Reached.{Reached, start, next, Reached-IsSound}
use tcl_script_runner.Web.Start
use tcl_script_runner.Web.Start.Serving.{Serves, start-Serves}
use tcl_script_runner.Tests.World.{
  host, yaml, ciphers, zeros, zeros-AreBytes, ciphers-IsLawful, ciphers_set_up, yaml_returns,
  host_marshals, host_unmarshals,
}
use tcl_script_runner.Tests.Jobs
use tcl_script_runner.Tests.Jobs.{H, cfg, north, south, lawful, lasting, timely, secret}

abbrev services : Services H
services = record {
  yaml = yaml;
  sort = λ less jobs. jobs;
  read_jobs = λ dir d. absent;
  formats = record { indent = λ s. none; clock = show_ℕ };
  parse_template = λ name. none;
}

abbrev app : App H
app = record {
  run = record { cfg = cfg; data_dir = "data"; passphrase = "pw"; busy = false };
  data_dir = "data";
  passphrase = "pw";
  tmpls = page_names;
}

abbrev draws : Draws
draws c = (ok (zeros 16), ok (zeros 12))

fresh : IsFresh draws
fresh = record {
  salt = λ c. zeros 16;
  nonce = λ c. zeros 12;
  drawn = λ c. refl;
  length-salt = λ c. refl;
  length-nonce = λ c. refl;
  salt-AreBytes = λ c. zeros-AreBytes 16;
  nonce-AreBytes = λ c. zeros-AreBytes 12;
}

random : IsRandom draws
random c = ((refl, zeros-AreBytes 16), (refl, zeros-AreBytes 12))

abbrev new_form : Form
new_form =
    ("name", " east " ∷ [])
    ∷ ("password", "secret" ∷ [])
    ∷ ("becs_port", "8080" ∷ [])
    ∷ ("enabled", "on" ∷ [])
    ∷ ("label_key", "site" ∷ " site" ∷ "" ∷ [])
    ∷ ("label_value", "a" ∷ " b " ∷ [])
    ∷ []

H-IsLawful : IsLawful H.ciphers
unfolding host
H-IsLawful = ciphers-IsLawful

filled : form_value "password" new_form ≢ ""
unfolding form_value values
filled h = cc h

free : lookup app.run.cfg (trim_space (form_value "name" new_form)) ≡ none
unfolding form_value values trim_space get default_config new_environment
free = refl

differ : NamesDiffer app.run.cfg.environments
unfolding default_config new_environment get
differ = (refl, (refl, tt))

create_environment-Stored_example :
    (env : Environment) × Stored H "pw" new_form no_environment env
    × Changed H services "/environments?msg=Environment+created"
        (add app.run.cfg env).1
        app
        Jobs.start
        (create_environment H services draws false new_form app Jobs.start)
    × ((m : String)
        → lookup (add app.run.cfg env).1 m
          ≡ (if env.name == m then some env else lookup app.run.cfg m))
create_environment-Stored_example =
    create_environment-Stored H services H-IsLawful draws fresh new_form app Jobs.start filled free

-- The environment is renamed, and only its password is typed again.
abbrev edited : Form
edited = ("name", "north-2" ∷ []) ∷ ("password", "secret" ∷ []) ∷ []

abbrev old_name : String
old_name = "north"

known : lookup app.run.cfg old_name ≡ some north
unfolding get default_config new_environment
known = refl

free_name :
    trim_space (form_value "name" edited) ≢ old_name
    → lookup app.run.cfg (trim_space (form_value "name" edited)) ≡ none
unfolding form_value values trim_space get default_config new_environment
free_name ne = refl

update_environment-Stored_example :
    (env : Environment) × Stored H "pw" edited north env
    × Changed H services "/environments?msg=Environment+updated"
        (update app.run.cfg old_name env).1
        app
        Jobs.start
        (update_environment H services draws old_name false edited app Jobs.start)
    × ((m : String)
        → lookup (update app.run.cfg old_name env).1 m ≡ (
            if env.name == m
            then some env
            else if old_name == m
            then none
            else lookup app.run.cfg m))
update_environment-Stored_example =
    update_environment-Stored H services H-IsLawful draws fresh edited app Jobs.start old_name north
      known free_name differ

temps : (dir pattern : String) (s : H.os.State) → (H.os.create_temp dir pattern s).0 ≢ hang
unfolding host
temps = create_temp_returns

marshals : (j : Job) → H.marshal_job j ≢ hang
marshals = host_marshals (some "context canceled")

trusts : Trusts H services
unfolding host
trusts = record {
  lawful = ciphers-IsLawful;
  ciphers = ciphers_set_up;
  temps = temps;
  marshals = yaml_returns;
}

returns : Returns H services 1
returns = record {
  trusts = trusts;
  timely = timely;
  marshals = marshals;
  unmarshals = host_unmarshals (some "context canceled");
}

abbrev empty : App H
empty = record app {
  run = record app.run { cfg = record default_config { path = "data/config.yaml" } };
}

sound : IsSound empty
unfolding default_config AllOpenable
sound = record { differ = tt; openable = tt; pages = refl; idle = refl; dir = refl }

abbrev creating : Request
creating = record { bad_form = false; form = new_form; msg = ""; draws = draws }

abbrev created : Handled H
created = serve H services 1 "POST" ("environments" ∷ []) creating empty Jobs.start

reached : Reached H services 1 empty Jobs.start created.1 created.2
reached = next "POST" ("environments" ∷ []) creating random start

Reached-IsSound_example : IsSound created.1
Reached-IsSound_example = Reached-IsSound H services 1 returns empty Jobs.start sound reached

-- The file has one environment.
abbrev one : Config
one = record default_config { environments = north ∷ []; path = "data/config.yaml" }

abbrev one_yaml : Services H
one_yaml = record services {
  yaml = record yaml { unmarshal = λ text. ok (record one { path = "" }) };
}

abbrev with_file : H.os.State
unfolding host memory
with_file = record { file = λ name. some "environments: ..."; faults = [] }

loaded : load H.os one_yaml.yaml (H.os.join "data" "config.yaml") with_file ≡ ok one
unfolding host memory load load_abs parse_config default_config new_environment
loaded = refl

opened : AllOpenable H.ciphers "pw" one.environments
unfolding AllOpenable default_config new_environment host ciphers decrypt new_gcm decode_blob
    open_box encode decode of_bytes to_bytes
opened = (
  record {
    password = inr ("secret", refl);
    ssh_password = inl refl;
    key_passphrase = inl refl;
    private_key = inl refl;
    preshared_key = inl refl;
  },
  tt,
)

one_differs : NamesDiffer one.environments
unfolding default_config new_environment get
one_differs = (refl, tt)

start-Serves_example :
    (a : App H) × (Start.start H one_yaml "data" "pw" with_file ≡ ok a) × Serves one "data" "pw" a
start-Serves_example =
    start-Serves H one_yaml "data" "pw" with_file one loaded (λ name. refl) one_differs opened

parse_labels-last_row_example :
    IsMap (parse_labels new_form)
    × ((k : String)
        → k ≢ ""
        → label k (parse_labels new_form)
          ≡ last_row k (values "label_key" new_form) (values "label_value" new_form))
parse_labels-last_row_example = parse_labels-last_row new_form

shown : form_value "becs_port" new_form ≡ show_ℤ (pos 8080)
unfolding form_value values show_ℤ show_ℕ
shown = refl

int_field-show_ℤ_example : int_field "becs_port" (pos 4499) new_form ≡ pos 8080
int_field-show_ℤ_example =
    int_field-show_ℤ "becs_port" (pos 4499) (pos 8080) new_form shown (omega arith) (λ e. cc e)
