-- ===== src/Web/Environments/Sound/Handlers.antt =====
-- internal/web/handlers.go: the handlers of environments, against what holds between two requests.
use tcl_script_runner.Prelude.{
  ℕ, String, ◌==◌, Bool, true, false, Option, none, some, ◌≡◌, ◌≢◌, inl, refl, sym, arith,
  if◌then◌else◌,
}
use tcl_script_runner.Outcome.{Outcome, ok, err, hang}
use tcl_script_runner.Config.{Config, Environment}
use tcl_script_runner.Config.Crud.{find_by_name, add, update, remove}
use tcl_script_runner.Config.Crud.Lookup.{lookup, env_of, NamesDiffer}
use tcl_script_runner.Config.Crud.Reference.{env_of-find_by_name, add_lem, remove_lem, update_lem}
use tcl_script_runner.Config.Crud.Unique.{perform, added, updated, removed, perform-NamesDiffer}
use tcl_script_runner.Config.Files.Returns.{save_returns}
use tcl_script_runner.Runner.Host.{Host, Sys}
use tcl_script_runner.Web.Form.{Form, form_value, parse_env_form}
use tcl_script_runner.Web.App.{Services, App, Handled, Response, redirect, failure, waiting}
use tcl_script_runner.Web.Environments.{
  Draws, becs_password, no_environment, with_cfg, saved, changed, adding, with_password,
  create_environment, updating, with_kept, revised, update_environment, removing,
  delete_environment,
}
use tcl_script_runner.Web.Environments.Opened.{
  Openable, AllOpenable, add-AllOpenable, update-AllOpenable, remove-AllOpenable, get-Openable,
}
use tcl_script_runner.Web.Environments.Sound.{
  IsSound, Sound, IsRandom, render_answers, with_cfg-IsSound, shown-Sound, Trusts, Usable, Secured,
  encrypt-Usable, maybe_encrypt-Usable, encrypt_tunnel_creds-Secured,
}

module _ (H : Host) (V : Services H) (K : Trusts H V) (a : App H) (k : IsSound a) (s : Sys H) where
  saved-Sound :
      (is_new : Bool) (env : Environment) (url : String) (cfg : Config)
      (o : Outcome (Unit {0}) × H.os.State)
      → IsSound (with_cfg H a cfg)
      → o.0 ≢ hang
      → Sound (saved H V is_new env url (with_cfg H a cfg) s o)
  unfolding saved
  saved-Sound is_new env url cfg (ok done, d) h r = (h, λ q. cc q)
  saved-Sound is_new env url cfg (err m, d) h r = (h, render_answers H _ _)
  saved-Sound is_new env url cfg (hang, d) h r = absurd (r refl)

  changed-Sound :
      (is_new : Bool) (env : Environment) (url : String) (o : Outcome (Unit {0}) × Config)
      → o.0 ≢ hang
      → NamesDiffer o.1.environments
      → AllOpenable H.ciphers a.passphrase o.1.environments
      → Sound (changed H V is_new env url a s o)
  unfolding changed
  changed-Sound is_new env url (ok done, cfg) r u o =
      saved-Sound is_new env url cfg _ (with_cfg-IsSound H a cfg k u o)
        (save_returns H.os V.yaml K.temps cfg s.disk (K.marshals cfg))
  changed-Sound is_new env url (err m, cfg) r u o =
      (with_cfg-IsSound H a cfg k u o, render_answers H _ _)
  changed-Sound is_new env url (hang, cfg) r u o = absurd (r refl)

  add_returns : (env : Environment) → (add a.run.cfg env).0 ≢ hang
  add_returns env h = ground (arith, add_lem a.run.cfg env)

  update_returns : (name : String) (env : Environment) → (update a.run.cfg name env).0 ≢ hang
  update_returns name env h = ground (arith, update_lem a.run.cfg name env)

  remove_returns : (name : String) → (remove a.run.cfg name).0 ≢ hang
  remove_returns name h = ground (arith, remove_lem a.run.cfg name)

  adding-Sound :
      (x : Outcome (Unit {0}) × Environment)
      → Secured H V K a.passphrase x
      → Sound (adding H V a s x)
  unfolding adding
  adding-Sound (ok done, env) o =
      changed-Sound true env _ (add a.run.cfg env) (add_returns env)
        (unfold perform in perform-NamesDiffer a.run.cfg (added env) k.differ)
        (add-AllOpenable H.ciphers a.passphrase a.run.cfg env k.openable o)
  adding-Sound (err m, env) o = shown-Sound H a _ s k
  adding-Sound (hang, env) o = absurd o

  updating-Sound :
      (name : String) (x : Outcome (Unit {0}) × Environment)
      → Secured H V K a.passphrase x
      → Sound (updating H V name a s x)
  unfolding updating
  updating-Sound name (ok done, env) o =
      changed-Sound false env _ (update a.run.cfg name env) (update_returns name env)
        (unfold perform in perform-NamesDiffer a.run.cfg (updated name env) k.differ)
        (update-AllOpenable H.ciphers a.passphrase a.run.cfg name env k.openable o)
  updating-Sound name (err m, env) o = shown-Sound H a _ s k
  updating-Sound name (hang, env) o = absurd o

  no_environment-Openable : Openable H.ciphers a.passphrase no_environment
  no_environment-Openable = record {
    password = inl refl;
    ssh_password = inl refl;
    key_passphrase = inl refl;
    private_key = inl refl;
    preshared_key = inl refl;
  }

  refused-Sound : (status : ℕ) (m : String) → Sound (failure status m, a, s)
  refused-Sound status m = (k, λ q. cc q)

  if_Sound : (b : Bool) (x y : Handled H) → Sound x → Sound y → Sound (if b then x else y)
  if_Sound true x y h g = h
  if_Sound false x y h g = g

  module _ (draws : Draws) (random : IsRandom draws) (form : Form) where
    with_password-Sound :
        (m : Outcome String)
        → Usable H V K a.passphrase m
        → Sound (with_password H V draws form a s (parse_env_form form) m)
    unfolding with_password
    with_password-Sound (ok enc) u = adding-Sound _ (
        encrypt_tunnel_creds-Secured H V K a.passphrase draws form
          (record (parse_env_form form) { password = enc }) no_environment random u
          no_environment-Openable)
    with_password-Sound (err m) u = shown-Sound H a _ s k
    with_password-Sound hang u = absurd u

    pub create_environment-Sound :
        (bad_form : Bool) → Sound (create_environment H V draws bad_form form a s)
    unfolding create_environment
    create_environment-Sound bad_form = if_Sound bad_form _ _ (refused-Sound 400 "bad form") (
        if_Sound (form_value "password" form == "") _ _ (shown-Sound H a _ s k) (
          with_password-Sound _ (
            encrypt-Usable H V K a.passphrase (draws becs_password) _ (random becs_password).0
              (random becs_password).1)))

    with_kept-Sound :
        (name : String) (existing : Environment) (m : Outcome String)
        → Openable H.ciphers a.passphrase existing
        → Usable H V K a.passphrase m
        → Sound (with_kept H V draws form name a s existing m)
    unfolding with_kept
    with_kept-Sound name existing (ok enc) o u = updating-Sound name _ (
        encrypt_tunnel_creds-Secured H V K a.passphrase draws form
          (record (parse_env_form form) { password = enc }) existing random u o)
    with_kept-Sound name existing (err m) o u = updating-Sound name _ (
        encrypt_tunnel_creds-Secured H V K a.passphrase draws form
          (record (parse_env_form form) { password = "" }) existing random (inl refl) o)
    with_kept-Sound name existing hang o u = absurd u

    revised-Sound :
        (name : String) (existing : Environment)
        → Openable H.ciphers a.passphrase existing
        → Sound (revised H V draws form name a s existing)
    unfolding revised
    revised-Sound name existing o = with_kept-Sound name existing _ o (
        maybe_encrypt-Usable H V K a.passphrase (draws becs_password) _ existing.password
          (random becs_password).0 (random becs_password).1 o.password)

    found-Sound :
        (name : String) (bad_form : Bool) (o : Option (Environment × ℕ))
        → env_of o ≡ lookup a.run.cfg name
        → Sound (elim o as (λ _. Handled H) [
          | none ↦ (failure 404 "environment not found", a, s)
          | some (existing, i) ↦
              if bad_form
              then (failure 400 "bad form", a, s)
              else revised H V draws form name a s existing
        ])
    found-Sound name bad_form none e = refused-Sound 404 "environment not found"
    found-Sound name bad_form (some (existing, i)) e =
        if_Sound bad_form _ _ (refused-Sound 400 "bad form") (
          revised-Sound name existing
            (get-Openable H.ciphers a.passphrase name a.run.cfg.environments k.openable (sym e)))

    pub update_environment-Sound :
        (name : String) (bad_form : Bool)
        → Sound (update_environment H V draws name bad_form form a s)
    unfolding update_environment
    update_environment-Sound name bad_form =
        found-Sound name bad_form (find_by_name a.run.cfg name) (env_of-find_by_name a.run.cfg name)

  removed_answers :
      (e : Outcome (Unit {0})) (url : String)
      → e ≢ hang
      → (elim e as (λ _. Response) [ hang ↦ waiting | _ ↦ redirect url ]) ≢ waiting
  removed_answers (ok done) url h = λ q. cc q
  removed_answers (err m) url h = λ q. cc q
  removed_answers hang url h = absurd (h refl)

  removing-Sound :
      (o : Outcome (Unit {0}) × Config)
      → o.0 ≢ hang
      → NamesDiffer o.1.environments
      → AllOpenable H.ciphers a.passphrase o.1.environments
      → Sound (removing H V a s o)
  unfolding removing
  removing-Sound (ok done, cfg) r u o = (
    with_cfg-IsSound H a cfg k u o,
    removed_answers _ _ (save_returns H.os V.yaml K.temps cfg s.disk (K.marshals cfg)),
  )
  removing-Sound (err m, cfg) r u o = (with_cfg-IsSound H a cfg k u o, λ q. cc q)
  removing-Sound (hang, cfg) r u o = absurd (r refl)

  pub delete_environment-Sound : (name : String) → Sound (delete_environment H V name a s)
  unfolding delete_environment
  delete_environment-Sound name =
      removing-Sound (remove a.run.cfg name) (remove_returns name)
        (unfold perform in perform-NamesDiffer a.run.cfg (removed name) k.differ)
        (remove-AllOpenable H.ciphers a.passphrase a.run.cfg name k.openable)
