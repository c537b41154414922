-- ===== src/Os.antt =====
-- The calls of Go's `os` and `path/filepath` that config.go and job.go make, over an unknown file
-- system, and the atomic replacement of a file that both `Save` methods spell out.
pub mod Replace
pub mod Returns
pub mod Memory
use tcl_script_runner.Prelude.{
  String, ◌==◌, Bool, false, Option, none, some, List, ◌≡◌, ◌≢◌, ◌⊎◌, inl, inr, ◌<>◌, if◌then◌else◌,
}
use tcl_script_runner.Outcome.{Outcome, ok, err}

-- A Go `error`: `none` is nil.
abbrev pub Error : Type 0
Error = Option String

-- `os.ReadFile`, with `fs.ErrNotExist` apart.
pub data Read : Type 0 where
  contents : String → Read
  missing : Read
  failed : String → Read

pub record Os : Type 1 where
  pub State : Type 0
  pub mkdir_all : String → State → Error × State
  pub create_temp : String → String → State → Outcome String × State
  pub write : String → String → State → Error × State
  pub close : String → State → Error × State
  pub rename : String → String → State → Error × State
  pub remove : String → State → Error × State
  pub read_file : String → State → Read
  pub abs : String → Outcome String
  pub dir : String → String
  pub join : String → String → String
  -- The text of the error that `os.ReadFile` gives for a missing file.
  pub not_exist : String → String
  -- The names that `os.CreateTemp` makes of the patterns that the program gives.
  pub is_temp : String → Bool

-- What a file holds, if it can be read.
abbrev pub content : (O : Os) → String → O.State → Option String
content O name s = elim (O.read_file name s) [
  | contents text ↦ some text
  | missing ↦ none
  | failed e ↦ none
]

-- The documented effects. `CreateTemp` makes a new file under a temporary name; `Write`, `Close`
-- and `Remove` touch no other file; a `Rename` replaces its target or changes nothing.
pub record IsLawful (O : Os) : Type 0 where
  pub mkdir_all-frame :
      (dir name : String) (s : O.State) → content O name (O.mkdir_all dir s).1 ≡ content O name s
  pub create_temp-is_temp :
      (dir pattern : String) (s : O.State) {tmp : String}
      → (O.create_temp dir pattern s).0 ≡ ok tmp
      → O.is_temp tmp ≡ Bool.true
  pub create_temp-frame :
      (dir pattern name : String) (s : O.State)
      → O.is_temp name ≡ false
      → content O name (O.create_temp dir pattern s).1 ≡ content O name s
  pub write-frame :
      (tmp text name : String) (s : O.State)
      → tmp ≢ name
      → content O name (O.write tmp text s).1 ≡ content O name s
  pub write_done :
      (tmp text dir pattern : String) (s : O.State)
      → (O.create_temp dir pattern s).0 ≡ ok tmp
      → let t = (O.create_temp dir pattern s).1 in
        (O.write tmp text t).0 ≡ none → content O tmp (O.write tmp text t).1 ≡ some text
  pub close-frame :
      (tmp name : String) (s : O.State) → content O name (O.close tmp s).1 ≡ content O name s
  pub rename_failed :
      (tmp target name : String) (s : O.State) {e : String}
      → (O.rename tmp target s).0 ≡ some e
      → content O name (O.rename tmp target s).1 ≡ content O name s
  pub rename_done :
      (tmp target : String) (s : O.State)
      → (O.rename tmp target s).0 ≡ none
      → content O target (O.rename tmp target s).1 ≡ content O tmp s
  pub rename-frame :
      (tmp target name : String) (s : O.State)
      → tmp ≢ name
      → target ≢ name
      → content O name (O.rename tmp target s).1 ≡ content O name s
  pub remove-frame :
      (tmp name : String) (s : O.State)
      → tmp ≢ name
      → content O name (O.remove tmp s).1 ≡ content O name s

-- The error prefixes of one `Save`; the last one ends with the target's name.
pub record Prefixes : Type 0 where
  pub creating : String
  pub writing : String
  pub closing : String
  pub renaming : String

module _ (O : Os) (p : Prefixes) where
  -- `os.Remove(tmpName)` and the return of the error; what `Remove` returns is dropped.
  discard : String → String → O.State → Outcome (Unit {0}) × O.State
  discard message tmp s = (err message, (O.remove tmp s).1)

  rename_step : String → String → O.State → Outcome (Unit {0}) × O.State
  unfolding discard
  rename_step tmp target s =
      let (e, t) = O.rename tmp target s in
      elim e [ none ↦ (ok tt, t) | some text ↦ discard (p.renaming <> text) tmp t ]

  close_step : String → String → O.State → Outcome (Unit {0}) × O.State
  unfolding discard
  close_step tmp target s =
      let (e, t) = O.close tmp s in
      elim e [ none ↦ rename_step tmp target t | some text ↦ discard (p.closing <> text) tmp t ]

  write_step : String → String → String → O.State → Outcome (Unit {0}) × O.State
  unfolding discard
  write_step tmp text target s =
      let (e, t) = O.write tmp text s in
      elim e [
        | none ↦ close_step tmp target t
        | some message ↦ discard (p.writing <> message) tmp (O.close tmp t).1
      ]

  -- A temporary file in `dir` is written, closed and renamed to `target`.
  unfoldable pub replace_file :
      String → String → String → String → O.State → Outcome (Unit {0}) × O.State
  unfolding write_step close_step rename_step discard
  replace_file dir pattern text target s =
      let (r, t) = O.create_temp dir pattern s in
      elim r [
        | ok tmp ↦ write_step tmp text target t
        | err message ↦ (err (p.creating <> message), t)
        | Outcome.hang ↦ (Outcome.hang, t)
      ]
