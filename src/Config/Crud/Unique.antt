-- ===== src/Config/Crud/Unique.antt =====
-- The names of the environments under `Add`, `Update` and `Remove` of config.go.
use tcl_script_runner.Prelude.{
  String, ◌==◌, eq_iff, ◌≡◌, ◌≢◌, ◌⊎◌, sym, ◌∙◌, false, none, List, [], ◌∷◌, ◌++◌, arith, inl, inr,
  Bool-cases, Option-cases,
}
use mathlib.Core.Path.{subst}
use tcl_script_runner.Config.{Environment, Config}
use tcl_script_runner.Config.Crud.{add, update, remove}
use tcl_script_runner.Config.Crud.Lookup.{
  get, lookup, erase, replace, NamesDiffer, absent-cons, get-append, get-erase, get-replace,
}
use tcl_script_runner.Config.Crud.Reference.{add_lem, remove_lem, update_lem, taken}
use tcl_script_runner.Config.Crud.Dictionary.{free-taken}

fresh_append :
    (env new : Environment) (envs : List Environment)
    → get env.name envs ≡ none
    → env.name ≢ new.name
    → get env.name (envs ++ new ∷ []) ≡ none
fresh_append env new envs fresh apart =
    ground (arith, get-append env.name envs new, eq_iff new.name env.name)

append-NamesDiffer :
    (envs : List Environment) (new : Environment)
    → NamesDiffer envs
    → get new.name envs ≡ none
    → NamesDiffer (envs ++ new ∷ [])
unfolding get
append-NamesDiffer [] new u free = (free, tt)
append-NamesDiffer (env ∷ envs) new (fresh, u) free =
    let (apart, free') = absent-cons new.name env envs free in
    (fresh_append env new envs fresh apart, append-NamesDiffer envs new u free')

erase-NamesDiffer :
    (name : String) (envs : List Environment) → NamesDiffer envs → NamesDiffer (erase name envs)
unfolding erase
erase-NamesDiffer name [] u = tt
erase-NamesDiffer name (env ∷ envs) (fresh, u) = elim (Bool-cases (env.name == name)) [
  | inl hit ↦ rw hit u
  | inr miss ↦
      rw miss (ground (arith, get-erase env.name name envs u), erase-NamesDiffer name envs u)
]

module _ (name : String) (new : Environment) where
  get-cons_ne :
      (env : Environment) (envs : List Environment)
      → (env.name == name) ≡ false
      → get name envs ≡ none
      → get name (env ∷ envs) ≡ none
  unfolding get
  get-cons_ne env envs miss absent = rw miss absent

  new_apart :
      (env : Environment)
      → (env.name == name) ≡ false
      → (new.name ≢ name → env.name ≢ new.name)
      → (new.name == env.name) ≡ false
  new_apart env miss apart = elim (Bool-cases (new.name == env.name)) [
    | inl same ↦
        let e = (eq_iff new.name env.name).0 same in
        absurd (apart (λ n. cc (miss, (eq_iff env.name name).1 (sym e ∙ n))) (sym e))
    | inr other ↦ other
  ]

  first_fresh :
      (env : Environment) (envs : List Environment)
      → get env.name envs ≡ none
      → env.name ≡ name
      → (new.name ≢ name → get new.name (env ∷ envs) ≡ none)
      → get new.name envs ≡ none
  first_fresh env envs fresh hit free = elim (Bool-cases (new.name == name)) [
    | inl same ↦ rw ((eq_iff new.name name).0 same ∙ sym hit) fresh
    | inr other ↦
        (absent-cons new.name env envs (free (λ e. cc (other, (eq_iff new.name name).1 e)))).1
  ]

  later_fresh :
      (env : Environment) (envs : List Environment)
      → get env.name envs ≡ none
      → NamesDiffer envs
      → get name envs ≢ none
      → (new.name ≢ name → get new.name envs ≡ none)
      → (new.name == env.name) ≡ false
      → get env.name (replace name new envs) ≡ none
  later_fresh env envs fresh u present free apart =
      rw (get-replace env.name name new envs u present free, apart) (ground (arith))

  replace-NamesDiffer :
      (envs : List Environment)
      → NamesDiffer envs
      → get name envs ≢ none
      → (new.name ≢ name → get new.name envs ≡ none)
      → NamesDiffer (replace name new envs)
  unfolding replace
  replace-NamesDiffer [] u present free = tt
  replace-NamesDiffer (env ∷ envs) (fresh, u) present free = elim (Bool-cases (env.name == name)) [
    | inl hit ↦ rw hit (first_fresh env envs fresh ((eq_iff env.name name).0 hit) free, u)
    | inr miss ↦
        let present' = λ (e : get name envs ≡ none). present (get-cons_ne env envs miss e) in
        let free' = λ (ne : new.name ≢ name). absent-cons new.name env envs (free ne) in
        rw miss (
          later_fresh env envs fresh u present' (λ ne. (free' ne).1)
              (new_apart env miss (λ ne. (free' ne).0)),
          replace-NamesDiffer envs u present' (λ ne. (free' ne).1),
        )
  ]

-- One call of the three, with the result dropped.
pub data Edit : Type 0 where
  added : Environment → Edit
  updated : String → Environment → Edit
  removed : String → Edit

unfoldable pub perform : Config → Edit → Config
perform c (added env) = (add c env).1
perform c (updated old_name env) = (update c old_name env).1
perform c (removed name) = (remove c name).1

pub perform_all : Config → List Edit → Config
perform_all c [] = c
perform_all c (e ∷ es) = perform_all (perform c e) es

-- A call leaves the list or installs a new one.
by_result :
    (c d : Config) (envs : List Environment)
    → NamesDiffer c.environments
    → (d ≡ c) ⊎ ((d.environments ≡ envs) × NamesDiffer envs)
    → NamesDiffer d.environments
by_result c d envs u (inl e) = subst (λ t. NamesDiffer t.environments) (sym e) u
by_result c d envs u (inr (e, v)) = subst NamesDiffer (sym e) v

pub perform-NamesDiffer :
    (c : Config) (e : Edit) → NamesDiffer c.environments → NamesDiffer (perform c e).environments
unfolding perform
perform-NamesDiffer c (added env) u =
    by_result c (add c env).1 (c.environments ++ env ∷ []) u
      (elim (Option-cases (lookup c env.name)) [
        | inl free ↦
            inr (ground (arith, add_lem c env), append-NamesDiffer c.environments env u free)
        | inr (_, e) ↦ inl (ground (arith, add_lem c env))
      ])
perform-NamesDiffer c (removed name) u =
    by_result c (remove c name).1 (erase name c.environments) u
      (elim (Option-cases (lookup c name)) [
        | inl free ↦ inl (ground (arith, remove_lem c name))
        | inr (_, e) ↦
            inr (ground (arith, remove_lem c name), erase-NamesDiffer name c.environments u)
      ])
perform-NamesDiffer c (updated name env) u =
    by_result c (update c name env).1 (replace name env c.environments) u
      (elim (Option-cases (lookup c name)) [
        | inl free ↦ inl (ground (arith, update_lem c name env))
        | inr (_, e) ↦ elim (Option-cases (taken c name env.name)) [
          | inl free ↦ inr (
            ground (arith, update_lem c name env),
            replace-NamesDiffer name env c.environments u (λ absent. cc (e, absent))
                (free-taken c name env free),
          )
          | inr (_, old) ↦ inl (ground (arith, update_lem c name env))
        ]
      ])

-- Names that differ still differ after any calls of Add, Update and Remove, failed ones
-- included.
pub perform_all-NamesDiffer :
    (c : Config) (es : List Edit)
    → NamesDiffer c.environments
    → NamesDiffer (perform_all c es).environments
unfolding perform_all
perform_all-NamesDiffer c [] u = u
perform_all-NamesDiffer c (e ∷ es) u =
    perform_all-NamesDiffer (perform c e) es (perform-NamesDiffer c e u)
