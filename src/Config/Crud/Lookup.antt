-- ===== src/Config/Crud/Lookup.antt =====
-- The environments of config.go as a dictionary by name, which forgets their order, and what
-- `Add`, `Update` and `Remove` do to it.
use tcl_script_runner.Prelude.{
  ℕ, suc, String, ◌==◌, eq_iff, ◌≡◌, ◌≢◌, refl, true, false, Option, none, some, List, [], ◌∷◌,
  ◌++◌, take, drop, set, arith, inl, inr, Bool-cases, if◌then◌else◌,
}
use tcl_script_runner.Config.{Environment, Config}
use tcl_script_runner.Config.Crud.{find_from}

abbrev pub env_of : Option (Environment × ℕ) → Option Environment
env_of none = none
env_of (some (env, i)) = some env

abbrev shift : Option (Environment × ℕ) → Option (Environment × ℕ)
shift none = none
shift (some (env, i)) = some (env, suc i)

find_from-suc :
    (i : ℕ) (name : String) (envs : List Environment)
    → find_from (suc i) name envs ≡ shift (find_from i name envs)
unfolding find_from
find_from-suc i name [] = refl
find_from-suc i name (env ∷ envs) = ground (arith, find_from-suc (suc i) name envs)

find_from-cons :
    (name : String) (env : Environment) (envs : List Environment)
    → find_from 0 name (env ∷ envs)
      ≡ (if env.name == name then some (env, 0) else shift (find_from 0 name envs))
unfolding find_from
find_from-cons name env envs = rw (find_from-suc 0 name envs)

-- The environment that a name stands for, if any.
unfoldable pub get : String → List Environment → Option Environment
get name [] = none
get name (env ∷ envs) = if env.name == name then some env else get name envs

pub env_of-find_from :
    (name : String) (envs : List Environment) → env_of (find_from 0 name envs) ≡ get name envs
unfolding get find_from
env_of-find_from name [] = refl
env_of-find_from name (env ∷ envs) =
    ground (arith, find_from-suc 0 name envs, env_of-find_from name envs)

pub absent-cons :
    (name : String) (env : Environment) (envs : List Environment)
    → get name (env ∷ envs) ≡ none
    → (env.name ≢ name) × (get name envs ≡ none)
unfolding get
absent-cons name env envs absent = elim (Bool-cases (env.name == name)) [
  | inl hit ↦ cc (rw hit at absent)
  | inr miss ↦ (λ e. cc (miss, (eq_iff env.name name).1 e), rw miss at absent)
]

-- The dictionary that a configuration is.
abbrev pub lookup : Config → String → Option Environment
lookup c name = get name c.environments

-- No two environments have one name.
abbrev pub NamesDiffer : List Environment → Type 0
NamesDiffer [] = Unit
NamesDiffer (env ∷ envs) = (get env.name envs ≡ none) × NamesDiffer envs

-- What the slice expressions of `Remove` and `Update` do, by recursion on the list.
unfoldable pub erase : String → List Environment → List Environment
erase name [] = []
erase name (env ∷ envs) = if env.name == name then envs else env ∷ erase name envs

unfoldable pub replace : String → Environment → List Environment → List Environment
replace name new [] = []
replace name new (env ∷ envs) = if env.name == name then new ∷ envs else env ∷ replace name new envs

unfoldable pub cut : List Environment → Option (Environment × ℕ) → List Environment
cut envs none = envs
cut envs (some (_, i)) = take i envs ++ drop (suc i) envs

unfoldable pub put : Environment → List Environment → Option (Environment × ℕ) → List Environment
put new envs none = envs
put new envs (some (_, i)) = set envs i new

cut-shift :
    (env : Environment) (envs : List Environment) (found : Option (Environment × ℕ))
    → cut (env ∷ envs) (shift found) ≡ env ∷ cut envs found
unfolding cut
cut-shift env envs none = refl
cut-shift env envs (some found) = refl

put-shift :
    (new env : Environment) (envs : List Environment) (found : Option (Environment × ℕ))
    → put new (env ∷ envs) (shift found) ≡ env ∷ put new envs found
unfolding put
put-shift new env envs none = refl
put-shift new env envs (some found) = refl

pub cut-find_from :
    (name : String) (envs : List Environment) → cut envs (find_from 0 name envs) ≡ erase name envs
unfolding erase cut find_from
cut-find_from name [] = refl
cut-find_from name (env ∷ envs) = ground (
  arith,
  find_from-suc 0 name envs,
  cut-shift env envs (find_from 0 name envs),
  cut-find_from name envs,
)

pub put-find_from :
    (name : String) (new : Environment) (envs : List Environment)
    → put new envs (find_from 0 name envs) ≡ replace name new envs
unfolding replace put find_from
put-find_from name new [] = refl
put-find_from name new (env ∷ envs) = ground (
  arith,
  find_from-suc 0 name envs,
  put-shift new env envs (find_from 0 name envs),
  put-find_from name new envs,
)

module _ (m : String) where
  pub get-append :
      (envs : List Environment) (new : Environment)
      → get m (envs ++ new ∷ []) ≡ elim (get m envs) [
        | some env ↦ some env
        | none ↦ if new.name == m then some new else none
      ]
  unfolding get
  get-append [] new = refl
  get-append (env ∷ envs) new = ground (arith, get-append envs new)

  pub get-erase :
      (name : String) (envs : List Environment)
      → NamesDiffer envs
      → get m (erase name envs) ≡ (if name == m then none else get m envs)
  unfolding get erase
  get-erase name [] u = ground arith
  get-erase name (env ∷ envs) (fresh, u) =
      ground (arith, eq_iff env.name name, eq_iff env.name m, eq_iff name m, get-erase name envs u)

  get-replace_absent :
      (name : String) (new : Environment) (envs : List Environment)
      → get name envs ≡ none
      → get m (replace name new envs) ≡ get m envs
  unfolding get replace
  get-replace_absent name new [] absent = refl
  get-replace_absent name new (env ∷ envs) absent = ground (arith, get-replace_absent name new envs)

  -- The first environment is replaced, and its name stands for no later one.
  shadowed :
      (name : String) (new env : Environment) (envs : List Environment)
      → env.name ≡ name
      → get env.name envs ≡ none
      → (if new.name == m then some new else get m envs) ≡ (
          if new.name == m
          then some new
          else if name == m
          then none
          else if env.name == m
          then some env
          else get m envs)
  shadowed name new env envs hit fresh = rw (← hit) (elim (Bool-cases (env.name == m)) [
    | inl same ↦ rw (same, ← (eq_iff env.name m).0 same, fresh)
    | inr other ↦ rw other
  ])

  kept :
      (name : String) (new env : Environment) (old : Option Environment)
      → (env.name == name) ≡ false
      → (new.name ≢ name → env.name ≢ new.name)
      → (if env.name == m
          then some env
          else if new.name == m
          then some new
          else if name == m
          then none
          else old)
        ≡ (if new.name == m
            then some new
            else if name == m
            then none
            else if env.name == m
            then some env
            else old)
  kept name new env old miss free = elim (Bool-cases (env.name == m)) [
    | inl same ↦ rw (same) (
        ground (
          arith,
          eq_iff env.name m,
          eq_iff name m,
          eq_iff env.name name,
          eq_iff new.name m,
          eq_iff new.name name,
        ))
    | inr other ↦ rw other
  ]

module _ (m name : String) (new : Environment) where
  replace_first :
      (env : Environment) (envs : List Environment)
      → get env.name envs ≡ none
      → (env.name == name) ≡ true
      → get m (replace name new (env ∷ envs))
        ≡ (if new.name == m then some new else if name == m then none else get m (env ∷ envs))
  unfolding get replace
  replace_first env envs fresh hit =
      rw hit (shadowed m name new env envs ((eq_iff env.name name).0 hit) fresh)

  replace_later :
      (env : Environment) (envs : List Environment)
      → get m (replace name new envs)
        ≡ (if new.name == m then some new else if name == m then none else get m envs)
      → (new.name ≢ name → env.name ≢ new.name)
      → (env.name == name) ≡ false
      → get m (replace name new (env ∷ envs))
        ≡ (if new.name == m then some new else if name == m then none else get m (env ∷ envs))
  unfolding get replace
  replace_later env envs ih free miss = rw (miss, ih) (kept m name new env (get m envs) miss free)

  -- What the dictionary holds after the first environment of that name has been replaced.
  pub get-replace :
      (envs : List Environment)
      → NamesDiffer envs
      → get name envs ≢ none
      → (new.name ≢ name → get new.name envs ≡ none)
      → get m (replace name new envs)
        ≡ (if new.name == m then some new else if name == m then none else get m envs)
  unfolding get
  get-replace [] u present free = absurd (present refl)
  get-replace (env ∷ envs) (fresh, u) present free = elim (Bool-cases (env.name == name)) [
    | inl hit ↦ replace_first env envs fresh hit
    | inr miss ↦
        replace_later env envs
          (get-replace envs u (λ e. present (rw miss e))
            (λ ne. (absent-cons new.name env envs (free ne)).1))
          (λ ne. (absent-cons new.name env envs (free ne)).0) miss
  ]

-- What is found under a name has that name.
pub get-name :
    (name : String) (envs : List Environment) {env : Environment}
    → get name envs ≡ some env
    → env.name ≡ name
unfolding get
get-name name [] h = cc h
get-name name (e ∷ envs) {env} h = elim (Bool-cases (e.name == name)) [
  | inl hit ↦ same_name (rw hit at h) ((eq_iff e.name name).0 hit)
  | inr miss ↦ get-name name envs (rw miss at h)
]
  where
    same_name : ◌≡◌ {A = Option Environment} (some e) (some env) → e.name ≡ name → env.name ≡ name
    same_name p q = cc (p, q)
