-- ===== src/Runner/Host.antt =====
-- What a runner works with: the network, the tunnels, the file system and the ciphers; and the
-- state that it shares with the rest of the program.
use tcl_script_runner.Prelude.{ℕ, String}
use tcl_script_runner.Outcome.{Outcome}
use tcl_script_runner.Os.{Os}
use tcl_script_runner.Becs.Recorder.{Recorder}
use tcl_script_runner.Becs.Client.{Net}
use tcl_script_runner.Tunnel.{Tunnels}
use tcl_script_runner.Config.Crypto.{Primitives}
use tcl_script_runner.Runner.Job.{Job}

-- `format_id` is `time.Format` in the layout of a job's ID; `marshal_job` and `unmarshal_job` are
-- `encoding/json` at the type `Job`.
pub record Host : Type 1 where
  pub net : Net
  pub tunnels : Tunnels net.World
  pub os : Os
  pub ciphers : Primitives
  pub format_id : ℕ → String
  pub marshal_job : Job → Outcome String
  pub unmarshal_job : String → Outcome Job

pub record Sys (H : Host) : Type 0 where
  pub log : Recorder
  pub world : H.net.World
  pub disk : H.os.State
