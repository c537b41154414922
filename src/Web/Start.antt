-- ===== src/Web/Start.antt =====
-- cmd/main.go: the wiring of the parts.
pub mod Serving
use tcl_script_runner.Prelude.{String}
use tcl_script_runner.Outcome.{Outcome, ok, err, wrap, ◌>>=◌}
use tcl_script_runner.Config.{Config}
use tcl_script_runner.Config.Files.{load}
use tcl_script_runner.Runner.Host.{Host}
use tcl_script_runner.Runner.Jobs.{new_runner}
use tcl_script_runner.Web.App.{Services, App, new_app}

-- `main` until it listens: the application, or what it logs before it exits with 1. The passphrase is
-- `os.Getenv("BECS_RUNNER_KEY")`, which may be empty.
unfoldable pub start : (H : Host) → Services H → String → String → H.os.State → Outcome (App H)
start H V data_dir passphrase d = do
  cfg ← wrap "load config: " (load H.os V.yaml (H.os.join data_dir "config.yaml") d)
  wrap "init web app: " (new_app H V (new_runner H cfg data_dir passphrase) data_dir passphrase)
