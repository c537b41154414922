-- ===== src/Config/Crud/Reference.antt =====
-- `Add`, `Update` and `Remove` of config.go against programs without indices, which ask the
-- dictionary and then edit the list by recursion.
use tcl_script_runner.Prelude.{
  String, ◌<>◌, ◌==◌, ◌≡◌, arith, Option, none, some, ◌∷◌, [], ◌++◌, inl, inr, Bool-cases,
  if◌then◌else◌,
}
use tcl_script_runner.Prelude.Text.{quote}
use tcl_script_runner.Outcome.{Outcome, ok, err}
use tcl_script_runner.Config.{Environment, Config}
use tcl_script_runner.Config.Crud.{find_by_name, conflict, add, update, remove}
use tcl_script_runner.Config.Crud.Lookup.{
  lookup, env_of, env_of-find_from, cut-find_from, put-find_from, cut, put, erase, replace,
}

abbrev already_exists : String → Outcome (Unit {0})
already_exists name = err ("config: environment " <> quote name <> " already exists")

abbrev not_found : String → Outcome (Unit {0})
not_found name = err ("config: environment " <> quote name <> " not found")

pub env_of-find_by_name :
    (c : Config) (name : String) → env_of (find_by_name c name) ≡ lookup c name
unfolding find_by_name
env_of-find_by_name c name = env_of-find_from name c.environments

cut-find_by_name :
    (c : Config) (name : String)
    → cut c.environments (find_by_name c name) ≡ erase name c.environments
unfolding find_by_name
cut-find_by_name c name = cut-find_from name c.environments

put-find_by_name :
    (c : Config) (name : String) (new : Environment)
    → put new c.environments (find_by_name c name) ≡ replace name new c.environments
unfolding find_by_name
put-find_by_name c name new = put-find_from name new c.environments

pub add_lem :
    (c : Config) (env : Environment)
    → add c env ≡ elim (lookup c env.name) [
      | some _ ↦ (already_exists env.name, c)
      | none ↦ (ok tt, record c { environments = c.environments ++ env ∷ [] })
    ]
unfolding add
add_lem c env = ground (arith, env_of-find_by_name c env.name)

pub remove_lem :
    (c : Config) (name : String)
    → remove c name ≡ elim (lookup c name) [
      | none ↦ (not_found name, c)
      | some _ ↦ (ok tt, record c { environments = erase name c.environments })
    ]
unfolding remove cut
remove_lem c name = ground (arith, env_of-find_by_name c name, cut-find_by_name c name)

-- The name of an update is taken if it differs from the old one and stands for an environment.
abbrev pub taken : Config → String → String → Option Environment
taken c old_name name = if name == old_name then none else lookup c name

env_of-conflict :
    (c : Config) (old_name : String) (updated : Environment)
    → env_of (conflict c old_name updated) ≡ taken c old_name updated.name
unfolding conflict
env_of-conflict c old_name updated = elim (Bool-cases (updated.name == old_name)) [
  | inl e ↦ rw e
  | inr e ↦ rw e (env_of-find_by_name c updated.name)
]

pub update_lem :
    (c : Config) (old_name : String) (updated : Environment)
    → update c old_name updated ≡ elim (lookup c old_name) [
      | none ↦ (not_found old_name, c)
      | some _ ↦ elim (taken c old_name updated.name) [
        | some _ ↦ (already_exists updated.name, c)
        | none ↦ (ok tt, record c { environments = replace old_name updated c.environments })
      ]
    ]
unfolding update put
update_lem c old_name updated = ground (
  arith,
  env_of-find_by_name c old_name,
  put-find_by_name c old_name updated,
  env_of-conflict c old_name updated,
)
