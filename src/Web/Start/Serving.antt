-- ===== src/Web/Start/Serving.antt =====
-- cmd/main.go: the application that `main` starts.
use tcl_script_runner.Prelude.{String, none, ◌≡◌, refl}
use tcl_script_runner.Outcome.{ok}
use tcl_script_runner.Config.{Config}
use tcl_script_runner.Config.Crud.Lookup.{NamesDiffer}
use tcl_script_runner.Config.Files.{load}
use tcl_script_runner.Runner.Host.{Host}
use tcl_script_runner.Runner.Jobs.{new_runner}
use tcl_script_runner.Web.App.{Services, App, page_names}
use tcl_script_runner.Web.App.Templates.{new_app-total}
use tcl_script_runner.Web.Environments.Opened.{AllOpenable}
use tcl_script_runner.Web.Environments.Sound.{IsSound}
use tcl_script_runner.Web.Start.{start}

-- An application over that configuration, with that directory and that passphrase in it and in its runner.
pub record Serves {H : Host} (cfg : Config) (data_dir passphrase : String) (a : App H)
    : Type 0 where
  pub config : a.run.cfg ≡ cfg
  pub run_passphrase : a.run.passphrase ≡ passphrase
  pub app_passphrase : a.passphrase ≡ passphrase
  pub app_dir : a.data_dir ≡ data_dir
  pub sound : IsSound a

module _ (H : Host) (V : Services H) (data_dir passphrase : String) where
  abbrev served : Config → App H
  served cfg = record {
    run = new_runner H cfg data_dir passphrase;
    data_dir = data_dir;
    passphrase = passphrase;
    tmpls = page_names;
  }

  served-Serves :
      (cfg : Config)
      → NamesDiffer cfg.environments
      → AllOpenable H.ciphers passphrase cfg.environments
      → Serves cfg data_dir passphrase (served cfg)
  unfolding new_runner
  served-Serves cfg u o = record {
    config = refl;
    run_passphrase = refl;
    app_passphrase = refl;
    app_dir = refl;
    sound = record { differ = u; openable = o; pages = refl; idle = refl; dir = refl };
  }

  -- If the file config.yaml of the directory loads, as a configuration whose names differ and
  -- whose credentials are unset or decrypt under the passphrase, and every template parses, then
  -- main starts, with a sound application over exactly that configuration, which has the
  -- directory, and it and its runner have the passphrase.
  pub start-Serves :
      (d : H.os.State) (cfg : Config)
      → load H.os V.yaml (H.os.join data_dir "config.yaml") d ≡ ok cfg
      → ((name : String) → V.parse_template name ≡ none)
      → NamesDiffer cfg.environments
      → AllOpenable H.ciphers passphrase cfg.environments
      → (a : App H) × (start H V data_dir passphrase d ≡ ok a) × Serves cfg data_dir passphrase a
  unfolding start
  start-Serves d cfg loaded parses u o = (
    served cfg,
    rw (
      loaded,
      new_app-total H V parses (new_runner H cfg data_dir passphrase) data_dir passphrase,
    ),
    served-Serves cfg u o,
  )
