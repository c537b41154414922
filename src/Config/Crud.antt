-- ===== src/Config/Crud.antt =====
-- internal/config/config.go: `FindByName`, `Add`, `Update` and `Remove`.
pub mod Lookup
pub mod Reference
pub mod Dictionary
pub mod Unique
use tcl_script_runner.Prelude.{
  ℕ, zero, suc, String, ◌<>◌, ◌==◌, Bool, Option, none, some, List, [], ◌∷◌, ◌++◌, take, drop, set,
  not, if◌then◌else◌,
}
use tcl_script_runner.Prelude.Text.{quote}
use tcl_script_runner.Outcome.{Outcome, ok, err}
use tcl_script_runner.Config.{Environment, Config}

-- The loop of `FindByName`, from index `i`; `none` is Go's `nil, -1`.
pub find_from : ℕ → String → List Environment → Option (Environment × ℕ)
find_from i name [] = none
find_from i name (env ∷ envs) =
    if env.name == name then some (env, i) else find_from (suc i) name envs

unfoldable pub find_by_name : Config → String → Option (Environment × ℕ)
unfolding find_from
find_by_name c name = find_from 0 name c.environments

-- The methods return the error beside the configuration, which they change in place.
unfoldable pub add : Config → Environment → Outcome (Unit {0}) × Config
add c env = elim (find_by_name c env.name) [
  | some found ↦ (err ("config: environment " <> quote env.name <> " already exists"), c)
  | none ↦ (ok tt, record c { environments = c.environments ++ env ∷ [] })
]

-- The second look-up of `Update`, made only if the name changes.
unfoldable pub conflict : Config → String → Environment → Option (Environment × ℕ)
conflict c old_name updated =
    if not (updated.name == old_name) then find_by_name c updated.name else none

unfoldable pub update : Config → String → Environment → Outcome (Unit {0}) × Config
unfolding conflict
update c old_name updated = elim (find_by_name c old_name) [
  | none ↦ (err ("config: environment " <> quote old_name <> " not found"), c)
  | some (_, idx) ↦ elim (conflict c old_name updated) [
    | some found ↦ (err ("config: environment " <> quote updated.name <> " already exists"), c)
    | none ↦ (ok tt, record c { environments = set c.environments idx updated })
  ]
]

unfoldable pub remove : Config → String → Outcome (Unit {0}) × Config
remove c name = elim (find_by_name c name) [
  | none ↦ (err ("config: environment " <> quote name <> " not found"), c)
  | some (_, idx) ↦
      (ok tt, record c { environments = take idx c.environments ++ drop (suc idx) c.environments })
]
