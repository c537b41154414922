-- ===== src/Config/Files.antt =====
-- internal/config/config.go: `Load`, `Save` and `SetPath`. The YAML library is a parameter.
pub mod RoundTrip
pub mod Returns
use tcl_script_runner.Prelude.{String, ◌<>◌, ◌==◌, ◌≡◌, if◌then◌else◌}
use tcl_script_runner.Prelude.Text.{quote}
use tcl_script_runner.Outcome.{Outcome, ok, err, hang, wrap, ◌>>=◌}
use tcl_script_runner.Os.{Os, Read, contents, missing, failed, Prefixes, replace_file}
use tcl_script_runner.Config.{Config, default_config}

-- gopkg.in/yaml.v3 at the type `Config`, whose path is not serialised.
pub record Yaml : Type 0 where
  pub marshal : Config → Outcome String
  pub unmarshal : String → Outcome Config

abbrev pub prefixes : String → Prefixes
prefixes path = record {
  creating = "config: creating temp file: ";
  writing = "config: writing temp file: ";
  closing = "config: closing temp file: ";
  renaming = "config: renaming temp file to " <> quote path <> ": ";
}

module _ (O : Os) (Y : Yaml) where
  unfoldable pub parse_config : String → String → Outcome Config
  parse_config abs_path text = do
    cfg ← wrap ("config: parsing " <> quote abs_path <> ": ") (Y.unmarshal text)
    ok (record cfg { path = abs_path })

  unfoldable pub load_abs : O.State → String → Outcome Config
  unfolding parse_config
  load_abs s abs_path = elim (O.read_file abs_path s) [
    | missing ↦ ok (record default_config { path = abs_path })
    | failed e ↦ err ("config: reading " <> quote abs_path <> ": " <> e)
    | contents text ↦ parse_config abs_path text
  ]

  unfoldable pub load : String → O.State → Outcome Config
  load path s = do
    abs_path ← wrap ("config: resolving path " <> quote path <> ": ") (O.abs path)
    load_abs s abs_path

  -- `Save` from the outcome of `yaml.Marshal` on.
  unfoldable pub save_text : Config → O.State → Outcome String → Outcome (Unit {0}) × O.State
  save_text c s (ok text) =
      replace_file O (prefixes c.path) (O.dir c.path) "config-*.yaml.tmp" text c.path s
  save_text c s (err e) = (err ("config: marshaling: " <> e), s)
  save_text c s hang = (hang, s)

  unfoldable pub save : Config → O.State → Outcome (Unit {0}) × O.State
  save c s =
      if c.path == ""
      then (err "config: no path set; load config first or set path explicitly", s)
      else save_text c s (Y.marshal c)

  unfoldable pub set_path : Config → String → Outcome Config
  set_path c path = do
    abs_path ← wrap ("config: resolving path " <> quote path <> ": ") (O.abs path)
    ok (record c { path = abs_path })
