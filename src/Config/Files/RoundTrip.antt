-- ===== src/Config/Files/RoundTrip.antt =====
-- config.go: `Save` and the file system, and `Load` after `Save`.
use tcl_script_runner.Prelude.{
  String, ◌==◌, false, some, ◌≡◌, ◌≢◌, refl, arith, inl, inr, Bool-cases,
}
use tcl_script_runner.Outcome.{Outcome, ok, err, hang}
use tcl_script_runner.Os.{Os, IsLawful, content}
use tcl_script_runner.Os.Replace.{Replaced, replace_file-Replaced}
use tcl_script_runner.Config.{Config}
use tcl_script_runner.Config.Files.{Yaml, prefixes, parse_config, load_abs, load, save_text, save}

-- What the program relies on: a configuration is read back from its own YAML, but for the path.
pub record IsFaithful (Y : Yaml) : Type 0 where
  pub unmarshal-marshal :
      (c : Config) {text : String}
      → Y.marshal c ≡ ok text
      → Y.unmarshal text ≡ ok (record c { path = "" })

module _ (O : Os) (Y : Yaml) (c : Config) where
  -- A call that succeeds leaves the configuration's YAML at its path, and one that fails leaves
  -- there what was there; no other name that is not temporary changes.
  abbrev pub Saved : Outcome (Unit {0}) × O.State → O.State → Type 0
  Saved (r, t) s =
      (r ≡ ok tt → (text : String) × (Y.marshal c ≡ ok text) × (content O c.path t ≡ some text))
      × (r ≢ ok tt → content O c.path t ≡ content O c.path s)
      × ((name : String)
          → O.is_temp name ≡ false
          → c.path ≢ name
          → content O name t ≡ content O name s)

  refused-Saved : (m : Outcome (Unit {0})) (s : O.State) → m ≢ ok tt → Saved (m, s) s
  refused-Saved m s ne = (λ e. absurd (ne e), λ _. refl, λ name h k. refl)

  replaced-Saved :
      {text : String} (r : Outcome (Unit {0}) × O.State) (s : O.State)
      → Y.marshal c ≡ ok text
      → Replaced O c.path text r s
      → Saved r s
  replaced-Saved {text} r s e (others, done, undone) = (λ f. (text, e, done f), undone, others)

module _ (O : Os) (L : IsLawful O) (Y : Yaml) (c : Config) (s : O.State) where
  save_text-Saved :
      O.is_temp c.path ≡ false
      → (m : Outcome String) → Y.marshal c ≡ m
      → Saved O Y c (save_text O Y c s m) s
  unfolding save_text
  save_text-Saved k (ok text) m = replaced-Saved O Y c _ s m (
      replace_file-Replaced O L (prefixes c.path) (O.dir c.path) "config-*.yaml.tmp" text c.path s
        k)
  save_text-Saved k (err e) m = refused-Saved O Y c _ s (λ f. cc f)
  save_text-Saved k hang m = refused-Saved O Y c _ s (λ f. cc f)

  -- On a lawful file system, for a path that is no temporary name, Save is atomic: its path then
  -- holds the whole of what the configuration marshals to if it succeeds, and what it held
  -- before if not, and no other name that is not temporary changes.
  pub save-Saved : O.is_temp c.path ≡ false → Saved O Y c (save O Y c s) s
  unfolding save
  save-Saved k = elim (Bool-cases (c.path == "")) [
    | inl e ↦ rw e (refused-Saved O Y c _ s (λ f. cc f))
    | inr e ↦ rw e (save_text-Saved k (Y.marshal c) refl)
  ]

  read_back :
      (t : O.State) {text : String}
      → content O c.path t ≡ some text
      → load_abs O Y t c.path ≡ parse_config O Y c.path text
  unfolding load_abs
  read_back t e = ground arith

  parse_config_lem :
      IsFaithful Y → {text : String} → Y.marshal c ≡ ok text → parse_config O Y c.path text ≡ ok c
  unfolding parse_config
  parse_config_lem F m = rw (F.unmarshal-marshal c m)

  -- On a lawful file system, for an absolute path that is no temporary name, and with YAML that
  -- reads back what it writes: after a Save that succeeds, Load of the same path gives the
  -- configuration back.
  pub load-save :
      IsFaithful Y
      → O.is_temp c.path ≡ false
      → O.abs c.path ≡ ok c.path
      → (save O Y c s).0 ≡ ok tt
      → load O Y c.path (save O Y c s).1 ≡ ok c
  unfolding load
  load-save F k a done =
      let (text, m, written) = (save-Saved k).0 done in
      rw (a, read_back (save O Y c s).1 written) (parse_config_lem F m)
