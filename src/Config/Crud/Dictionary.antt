-- ===== src/Config/Crud/Dictionary.antt =====
-- What `Add`, `Update` and `Remove` of config.go do to the dictionary by name, errors included.
use tcl_script_runner.Prelude.{
  String, ◌==◌, eq_iff, ◌≡◌, ◌≢◌, ◌↔◌, none, some, arith, inl, inr, Bool-cases, if◌then◌else◌,
}
use tcl_script_runner.Outcome.{ok}
use tcl_script_runner.Config.{Environment, Config}
use tcl_script_runner.Config.Crud.{add, update, remove}
use tcl_script_runner.Config.Crud.Lookup.{lookup, NamesDiffer, get-append, get-erase, get-replace}
use tcl_script_runner.Config.Crud.Reference.{add_lem, remove_lem, update_lem, taken}

-- What a name stands for after Add.
pub lookup-add :
    (c : Config) (env : Environment) (m : String)
    → lookup (add c env).1 m
      ≡ elim (lookup c m) [ some old ↦ some old | none ↦ if env.name == m then some env else none ]
lookup-add c env m = rw add_lem (ground (arith, eq_iff env.name m, get-append m c.environments env))

module _ (c : Config) (env : Environment) where
  add_added :
      lookup c env.name ≡ none
      → (m : String) → lookup (add c env).1 m ≡ (if env.name == m then some env else lookup c m)
  add_added free m = ground (arith, eq_iff env.name m, lookup-add c env m)

  -- Add succeeds exactly if the name stands for nothing. If it does not succeed, it changes
  -- nothing. If it does, the name stands for the new environment, and each other name for what
  -- it stood for.
  pub add-Added :
      (((add c env).0 ≡ ok tt) ↔ (lookup c env.name ≡ none))
      × ((add c env).0 ≢ ok tt → (add c env).1 ≡ c)
      × ((add c env).0 ≡ ok tt
          → (m : String)
          → lookup (add c env).1 m ≡ (if env.name == m then some env else lookup c m))
  add-Added =
      let exact : ((add c env).0 ≡ ok tt) ↔ (lookup c env.name ≡ none) =
        (λ h. ground (arith, add_lem c env), λ h. ground (arith, add_lem c env)) in
      (exact, λ h. ground (arith, add_lem c env), λ h. add_added (exact.0 h))

-- If the names differ, then after Remove the name stands for nothing, and each other name for
-- what it stood for.
pub lookup-remove :
    (c : Config) (name m : String)
    → NamesDiffer c.environments
    → lookup (remove c name).1 m ≡ (if name == m then none else lookup c m)
lookup-remove c name m u =
    rw remove_lem (ground (arith, eq_iff name m, get-erase m name c.environments u))

module _ (c : Config) (old_name : String) (updated : Environment) where
  update_accepted :
      (update c old_name updated).0 ≡ ok tt
      → (lookup c old_name ≢ none) × (taken c old_name updated.name ≡ none)
  update_accepted h =
      (ground (arith, update_lem c old_name updated), ground (arith, update_lem c old_name updated))

  pub free-taken :
      taken c old_name updated.name ≡ none → updated.name ≢ old_name → lookup c updated.name ≡ none
  free-taken h ne = ground (arith, eq_iff updated.name old_name)

  taken_free :
      (updated.name ≢ old_name → lookup c updated.name ≡ none)
      → taken c old_name updated.name ≡ none
  taken_free free = elim (Bool-cases (updated.name == old_name)) [
    | inl same ↦ rw same
    | inr other ↦ rw (other, free (λ e. cc (other, (eq_iff updated.name old_name).1 e)))
  ]

  update_accepts :
      lookup c old_name ≢ none
      → taken c old_name updated.name ≡ none
      → (update c old_name updated).0 ≡ ok tt
  update_accepts present free = ground (arith, update_lem c old_name updated)

  -- Update succeeds exactly when the old name is there and the new one is the same or free.
  pub update-eq-ok :
      ((update c old_name updated).0 ≡ ok tt)
      ↔ ((lookup c old_name ≢ none) × (updated.name ≢ old_name → lookup c updated.name ≡ none))
  update-eq-ok = (
    λ h. let t = update_accepted h in (t.0, free-taken t.1),
    λ h. update_accepts h.0 (taken_free h.1),
  )

  -- If the names differ, then after an Update that succeeds the new name stands for the new
  -- environment, the old name for nothing unless it is the new name, and each other name for
  -- what it stood for.
  pub lookup-update :
      (m : String)
      → NamesDiffer c.environments
      → (update c old_name updated).0 ≡ ok tt
      → lookup (update c old_name updated).1 m
        ≡ (if updated.name == m then some updated else if old_name == m then none else lookup c m)
  lookup-update m u done =
      let t = update_accepted done in
      rw (← get-replace m old_name updated c.environments u t.0 (free-taken t.1))
        (ground (arith, update_lem c old_name updated))

  -- An Update that fails changes nothing.
  pub update_failed : (update c old_name updated).0 ≢ ok tt → (update c old_name updated).1 ≡ c
  update_failed h = ground (arith, update_lem c old_name updated)
