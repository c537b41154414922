-- ===== src/Config/Files/Returns.antt =====
-- config.go: whether `Save` returns.
use tcl_script_runner.Prelude.{String, ◌==◌, ◌≢◌, refl, if◌then◌else◌, Bool, true, false}
use tcl_script_runner.Outcome.{Outcome, ok, err, hang}
use tcl_script_runner.Os.{Os}
use tcl_script_runner.Os.Returns.{replace_file_returns}
use tcl_script_runner.Config.{Config}
use tcl_script_runner.Config.Files.{Yaml, prefixes, save_text, save}

module _ (O : Os) (Y : Yaml)
    (temps : (dir pattern : String) (s : O.State) → (O.create_temp dir pattern s).0 ≢ hang) where
  save_text_returns :
      (c : Config) (s : O.State) (m : Outcome String) → m ≢ hang → (save_text O Y c s m).0 ≢ hang
  unfolding save_text
  save_text_returns c s (ok text) h =
      replace_file_returns O (prefixes c.path) _ _ text c.path s (temps _ _ s)
  save_text_returns c s (err e) h = λ q. cc q
  save_text_returns c s hang h = absurd (h refl)

  by_path :
      (b : Bool) (x y : Outcome (Unit {0}) × O.State)
      → x.0 ≢ hang
      → y.0 ≢ hang
      → (if b then x else y).0 ≢ hang
  by_path true x y h k = h
  by_path false x y h k = k

  pub save_returns : (c : Config) (s : O.State) → Y.marshal c ≢ hang → (save O Y c s).0 ≢ hang
  unfolding save
  save_returns c s h =
      by_path (c.path == "") _ _ (λ q. cc q) (save_text_returns c s (Y.marshal c) h)
