-- ===== src/Web/Environments/Stored.antt =====
-- internal/web/handlers.go: what `createEnvironment` and `updateEnvironment` store.
use mathlib.Core.Path.{subst}
use tcl_script_runner.Prelude.{
  ℕ, String, ◌==◌, true, false, Option, none, some, ◌≡◌, ◌≢◌, refl, sym, ◌∙◌, arith, eq_iff,
  if◌then◌else◌,
}
use tcl_script_runner.Prelude.Text.{trim_space}
use tcl_script_runner.Outcome.{ok}
use tcl_script_runner.Config.{Environment}
use tcl_script_runner.Config.Crud.{find_by_name, add, update}
use tcl_script_runner.Config.Crud.Lookup.{lookup, env_of, NamesDiffer}
use tcl_script_runner.Config.Crud.Reference.{env_of-find_by_name, add_lem}
use tcl_script_runner.Config.Crud.Dictionary.{update-eq-ok, lookup-add, lookup-update}
use tcl_script_runner.Config.Crypto.{IsLawful, encrypt}
use tcl_script_runner.Runner.Host.{Host, Sys}
use tcl_script_runner.Web.Form.{Form, form_value, parse_env_form}
use tcl_script_runner.Web.App.{Services, App}
use tcl_script_runner.Web.Environments.{
  Draws, becs_password, no_environment, maybe_encrypt, encrypt_tunnel_creds, changed, adding,
  with_password, create_environment, updating, with_kept, revised, update_environment,
}
use tcl_script_runner.Web.Environments.Saving.{Changed, changed-Changed}
use tcl_script_runner.Web.Environments.Secrets.{
  IsFresh, Holds, Secured, with_secrets, encrypt-opens, maybe_encrypt-Holds,
  encrypt_tunnel_creds-Secured,
}

-- An environment without its five credentials.
abbrev pub without_secrets : Environment → Environment
without_secrets env = record env {
  password = "";
  ssh = record env.ssh { password = ""; key_passphrase = "" };
  wireguard = record env.wireguard { private_key = ""; preshared_key = "" };
}

-- An environment is what the form says; each credential is the form's, encrypted, or where the form
-- leaves it blank the existing one.
pub record Stored (H : Host) (passphrase : String) (form : Form) (existing env : Environment)
    : Type 0 where
  pub plain : without_secrets env ≡ parse_env_form form
  pub password : Holds H passphrase (form_value "password" form) existing.password env.password
  pub tunnels : Secured H passphrase form existing env

module _ (H : Host) (V : Services H) where
  module _ (L : IsLawful H.ciphers) (draws : Draws) (F : IsFresh draws) (form : Form) (a : App H)
      (s : Sys H) where
    accepted :
        (env : Environment) → lookup a.run.cfg env.name ≡ none → (add a.run.cfg env).0 ≡ ok tt
    accepted env free = ground (arith, add_lem a.run.cfg env)

    -- A name that was free before stands for the new environment, and each other for what it did.
    now_added :
        (env : Environment) (m : String)
        → lookup a.run.cfg env.name ≡ none
        → lookup (add a.run.cfg env).1 m ≡ (if env.name == m then some env else lookup a.run.cfg m)
    now_added env m free = ground (arith, eq_iff env.name m, lookup-add a.run.cfg env m)

    -- The password is there and the name is free.
    module _ (filled : form_value "password" form ≢ "")
        (free : lookup a.run.cfg (trim_space (form_value "name" form)) ≡ none) where
      filled_false : (form_value "password" form == "") ≡ false
      filled_false = ground (arith, eq_iff (form_value "password" form) "")

      created :
          (enc p k w q : String)
          → encrypt H.ciphers
              (draws becs_password).0
              (draws becs_password).1
              (form_value "password" form)
              a.passphrase
            ≡ ok enc
          → let env = with_secrets (record (parse_env_form form) { password = enc }) p k w q in
            encrypt_tunnel_creds H a.passphrase draws form
                (record (parse_env_form form) { password = enc })
                no_environment
              ≡ (ok tt, env)
            → create_environment H V draws false form a s
              ≡ changed H V true env "/environments?msg=Environment+created" a s (add a.run.cfg env)
      unfolding create_environment with_password adding
      created enc p k w q made secured = rw (filled_false, made, secured) refl

      -- If the ciphers are lawful, the random source works, the form parses and has a password,
      -- and its trimmed name is free, then createEnvironment adds an environment that is what
      -- the form says, whose credentials decrypt to the form's or are empty where it leaves them
      -- blank. It saves, and answers with the list exactly if the save succeeds; every other
      -- name stands for what it stood for.
      pub create_environment-Stored :
          (env : Environment) × Stored H a.passphrase form no_environment env
          × Changed H V "/environments?msg=Environment+created"
              (add a.run.cfg env).1
              a
              s
              (create_environment H V draws false form a s)
          × ((m : String)
              → lookup (add a.run.cfg env).1 m
                ≡ (if env.name == m then some env else lookup a.run.cfg m))
      create_environment-Stored =
          let (enc, made, opened) =
            encrypt-opens H a.passphrase L draws F becs_password (form_value "password" form) in
          let (p, k, w, q, secured, sec) =
            encrypt_tunnel_creds-Secured H a.passphrase L draws F form
              (record (parse_env_form form) { password = enc }) no_environment in
          let env = with_secrets (record (parse_env_form form) { password = enc }) p k w q in
          let named : env.name ≡ trim_space (form_value "name" form) =
            unfold parse_env_form in refl in
          let free_env : lookup a.run.cfg env.name ≡ none = rw named free in
          (
            env,
            record {
              plain = unfold parse_env_form in refl;
              password = record { kept = λ blank. absurd (filled blank); opens = λ f. opened };
              tunnels = sec;
            },
            subst (Changed H V "/environments?msg=Environment+created" (add a.run.cfg env).1 a s)
                (sym (created enc p k w q made secured))
                (changed-Changed H V true env "/environments?msg=Environment+created" a s
                  (add a.run.cfg env) (accepted env free_env)),
            λ m. now_added env m free_env,
          )

    -- The old name stands for an environment, and the new one is the same or free.
    module _ (old_name : String) (existing : Environment)
        (known : lookup a.run.cfg old_name ≡ some existing)
        (free : trim_space (form_value "name" form) ≢ old_name
          → lookup a.run.cfg (trim_space (form_value "name" form)) ≡ none) where
      found :
          (o : Option (Environment × ℕ))
          → env_of o ≡ some existing
          → (i : ℕ) × (o ≡ some (existing, i))
      found none h = cc h
      found (some (env, i)) h = (i, cc h)

      at_known :
          update_environment H V draws old_name false form a s
          ≡ revised H V draws form old_name a s existing
      unfolding update_environment
      at_known =
          let (i, e) =
            found (find_by_name a.run.cfg old_name)
              (env_of-find_by_name a.run.cfg old_name ∙ known) in
          rw (e, update_environment) refl

      revised_as :
          (enc p k w q : String)
          → maybe_encrypt H a.passphrase
              (draws becs_password)
              (form_value "password" form)
              existing.password
            ≡ ok enc
          → let env = with_secrets (record (parse_env_form form) { password = enc }) p k w q in
            encrypt_tunnel_creds H a.passphrase draws form
                (record (parse_env_form form) { password = enc })
                existing
              ≡ (ok tt, env)
            → update_environment H V draws old_name false form a s
              ≡ changed H V false env "/environments?msg=Environment+updated" a s
                  (update a.run.cfg old_name env)
      unfolding revised with_kept updating
      revised_as enc p k w q made secured = at_known ∙ rw (made, secured, revised) refl

      -- If the ciphers are lawful, the random source works, the names differ, the form parses,
      -- the old name is known and the form's trimmed name is the same or free, then
      -- updateEnvironment puts in the place of the environment one that is what the form says,
      -- with the old credentials where the form leaves them blank and else ones that decrypt to
      -- the form's. It saves, and answers with the list exactly if the save succeeds.
      pub update_environment-Stored :
          NamesDiffer a.run.cfg.environments
          → (env : Environment) × Stored H a.passphrase form existing env
            × Changed H V "/environments?msg=Environment+updated"
                (update a.run.cfg old_name env).1
                a
                s
                (update_environment H V draws old_name false form a s)
            × ((m : String)
                → lookup (update a.run.cfg old_name env).1 m ≡ (
                    if env.name == m
                    then some env
                    else if old_name == m
                    then none
                    else lookup a.run.cfg m))
      update_environment-Stored differ =
          let (enc, made, opened) =
            maybe_encrypt-Holds H a.passphrase L draws F becs_password (form_value "password" form)
              existing.password in
          let (p, k, w, q, secured, sec) =
            encrypt_tunnel_creds-Secured H a.passphrase L draws F form
              (record (parse_env_form form) { password = enc }) existing in
          let env = with_secrets (record (parse_env_form form) { password = enc }) p k w q in
          let named : env.name ≡ trim_space (form_value "name" form) =
            unfold parse_env_form in refl in
          let free_env : env.name ≢ old_name → lookup a.run.cfg env.name ≡ none = rw named free in
          let done : (update a.run.cfg old_name env).0 ≡ ok tt =
            (update-eq-ok a.run.cfg old_name env).1 ((λ h. cc (h, known)), free_env) in
          (
            env,
            record { plain = unfold parse_env_form in refl; password = opened; tunnels = sec },
            subst
                (Changed H V "/environments?msg=Environment+updated"
                  (update a.run.cfg old_name env).1 a s)
                (sym (revised_as enc p k w q made secured))
                (changed-Changed H V false env "/environments?msg=Environment+updated" a s
                  (update a.run.cfg old_name env) done),
            λ m. lookup-update a.run.cfg old_name env m differ done,
          )
