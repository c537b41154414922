-- ===== src/Web/Environments.antt =====
-- internal/web/handlers.go: the handlers of environments, with the encryption of their credentials.
pub mod Secrets
pub mod Saving
pub mod Stored
pub mod Opened
pub mod Sound
use tcl_script_runner.Prelude.{
  String, ◌<>◌, ◌==◌, Bool, true, false, Option, none, some, List, [], if◌then◌else◌,
}
use tcl_script_runner.Prelude.Int.{pos}
use tcl_script_runner.Prelude.Utf8.{Bytes}
use tcl_script_runner.Outcome.{Outcome, ok, err, hang}
use tcl_script_runner.Config.{Config, Environment, no_ssh, no_wireguard, new_environment}
use tcl_script_runner.Config.Crud.{find_by_name, add, update, remove}
use tcl_script_runner.Config.Crypto.{encrypt}
use tcl_script_runner.Config.Files.{save}
use tcl_script_runner.Runner.Host.{Host, Sys}
use tcl_script_runner.Web.Form.{Form, form_value, parse_env_form}
use tcl_script_runner.Web.App.{
  Services, App, Handled, Response, environments, environment_form, redirect, failure, waiting,
  render,
}

-- The credentials that a form may hold.
pub data Credential : Type 0 where
  becs_password : Credential
  ssh_password : Credential
  ssh_key_passphrase : Credential
  wg_private_key : Credential
  wg_preshared_key : Credential

-- What the random source gives for the salt and the nonce of each credential.
abbrev pub Draws : Type 0
Draws = Credential → Outcome Bytes × Outcome Bytes

-- Go's zero value.
abbrev pub no_environment : Environment
no_environment = record {
  name = "";
  becs_host = "";
  becs_port = pos 0;
  username = "";
  password = "";
  tunnel_type = "";
  ssh = no_ssh;
  wireguard = no_wireguard;
  enabled = false;
  notes = "";
  labels = [];
}

-- `field, err = …` with the return of the error, under which the field is empty.
abbrev pub assign :
    String
    → Outcome String
    → (String → Environment)
    → (Environment → Outcome (Unit {0}) × Environment)
    → Outcome (Unit {0}) × Environment
assign prefix (ok v) put next = next (put v)
assign prefix (err e) put next = (err (prefix <> e), put "")
assign prefix hang put next = (hang, put "")

module _ (H : Host) where
  unfoldable pub maybe_encrypt :
      String → Outcome Bytes × Outcome Bytes → String → String → Outcome String
  maybe_encrypt passphrase draw new_val existing =
      if new_val == "" then ok existing else encrypt H.ciphers draw.0 draw.1 new_val passphrase

  unfoldable pub encrypt_tunnel_creds :
      String → Draws → Form → Environment → Environment → Outcome (Unit {0}) × Environment
  encrypt_tunnel_creds passphrase draws form env existing =
      assign "encrypt SSH password: "
        (maybe_encrypt passphrase (draws ssh_password) (form_value "ssh_password" form)
          existing.ssh.password)
        (λ v. record env { ssh = record env.ssh { password = v } })
        λ env1.
          assign "encrypt SSH key passphrase: "
            (maybe_encrypt passphrase (draws ssh_key_passphrase)
              (form_value "ssh_key_passphrase" form) existing.ssh.key_passphrase)
            (λ v. record env1 { ssh = record env1.ssh { key_passphrase = v } })
            λ env2.
              assign "encrypt WireGuard private key: "
                (maybe_encrypt passphrase (draws wg_private_key) (form_value "wg_private_key" form)
                  existing.wireguard.private_key)
                (λ v. record env2 { wireguard = record env2.wireguard { private_key = v } })
                λ env3.
                  assign "encrypt WireGuard PSK: "
                    (maybe_encrypt passphrase (draws wg_preshared_key)
                      (form_value "wg_preshared_key" form) existing.wireguard.preshared_key)
                    (λ v. record env3 { wireguard = record env3.wireguard { preshared_key = v } })
                    (λ env4. (ok tt, env4))

  unfoldable pub list_environments : String → App H → Response
  list_environments msg a = render H a (environments a.run.cfg.environments msg)

  unfoldable pub new_environment_form : App H → Response
  new_environment_form a = render H a (environment_form new_environment true "")

  unfoldable pub edit_environment_form : String → App H → Response
  edit_environment_form name a = elim (find_by_name a.run.cfg name) [
    | none ↦ failure 404 "environment not found"
    | some (env, i) ↦ render H a (environment_form env false "")
  ]

  abbrev pub with_cfg : App H → Config → App H
  with_cfg a cfg = record a { run = record a.run { cfg = cfg } }

module _ (H : Host) (V : Services H) where
  -- What the two handlers that change an environment do after `Save`: a form again, or the list.
  pub saved :
      Bool → Environment → String → App H → Sys H → Outcome (Unit {0}) × H.os.State → Handled H
  saved is_new env url a s (ok done, d) = (redirect url, a, record s { disk = d })
  saved is_new env url a s (err e, d) =
      (render H a (environment_form env is_new ("save config: " <> e)), a, record s { disk = d })
  saved is_new env url a s (hang, d) = (waiting, a, record s { disk = d })

  -- What they do after `Add` or `Update`, which may have changed the configuration.
  pub changed :
      Bool → Environment → String → App H → Sys H → Outcome (Unit {0}) × Config → Handled H
  unfolding saved
  changed is_new env url a s (ok done, cfg) =
      saved is_new env url (with_cfg H a cfg) s (save H.os V.yaml cfg s.disk)
  changed is_new env url a s (err e, cfg) =
      (render H a (environment_form env is_new e), with_cfg H a cfg, s)
  changed is_new env url a s (hang, cfg) = (waiting, with_cfg H a cfg, s)

  -- `createEnvironment` after `encryptTunnelCreds`.
  pub adding : App H → Sys H → Outcome (Unit {0}) × Environment → Handled H
  unfolding changed
  adding a s (ok done, env) =
      changed true env "/environments?msg=Environment+created" a s (add a.run.cfg env)
  adding a s (err e, env) = (render H a (environment_form env true e), a, s)
  adding a s (hang, env) = (waiting, a, s)

  -- `createEnvironment` after the encryption of the password.
  pub with_password : Draws → Form → App H → Sys H → Environment → Outcome String → Handled H
  unfolding adding
  with_password draws form a s env (ok enc) = adding a s (
      encrypt_tunnel_creds H a.passphrase draws form (record env { password = enc }) no_environment)
  with_password draws form a s env (err e) =
      (render H a (environment_form env true ("encrypt password: " <> e)), a, s)
  with_password draws form a s env hang = (waiting, a, s)

  -- `bad_form` says whether `ParseForm` fails.
  unfoldable pub create_environment : Draws → Bool → Form → App H → Sys H → Handled H
  unfolding with_password
  create_environment draws bad_form form a s =
      if bad_form
      then (failure 400 "bad form", a, s)
      else if form_value "password" form == ""
      then (
        render H a (environment_form (parse_env_form form) true "BECS password is required"),
        a,
        s,
      )
      else with_password draws form a s (parse_env_form form) (
          encrypt H.ciphers (draws becs_password).0 (draws becs_password).1
            (form_value "password" form) a.passphrase)

  -- `updateEnvironment` after `encryptTunnelCreds`.
  pub updating : String → App H → Sys H → Outcome (Unit {0}) × Environment → Handled H
  unfolding changed
  updating old_name a s (ok done, env) =
      changed false env "/environments?msg=Environment+updated" a s (update a.run.cfg old_name env)
  updating old_name a s (err e, env) = (render H a (environment_form env false e), a, s)
  updating old_name a s (hang, env) = (waiting, a, s)

  -- `updateEnvironment` after the encryption of the password, whose error is dropped: the password is
  -- then empty.
  pub with_kept : Draws → Form → String → App H → Sys H → Environment → Outcome String → Handled H
  unfolding updating
  with_kept draws form old_name a s existing (ok enc) = updating old_name a s (
      encrypt_tunnel_creds H a.passphrase draws form
        (record (parse_env_form form) { password = enc }) existing)
  with_kept draws form old_name a s existing (err e) = updating old_name a s (
      encrypt_tunnel_creds H a.passphrase draws form
        (record (parse_env_form form) { password = "" }) existing)
  with_kept draws form old_name a s existing hang = (waiting, a, s)

  pub revised : Draws → Form → String → App H → Sys H → Environment → Handled H
  unfolding with_kept
  revised draws form old_name a s existing = with_kept draws form old_name a s existing (
      maybe_encrypt H a.passphrase (draws becs_password) (form_value "password" form)
        existing.password)

  unfoldable pub update_environment : Draws → String → Bool → Form → App H → Sys H → Handled H
  unfolding revised
  update_environment draws old_name bad_form form a s = elim (find_by_name a.run.cfg old_name) [
    | none ↦ (failure 404 "environment not found", a, s)
    | some (existing, i) ↦
        if bad_form
        then (failure 400 "bad form", a, s)
        else revised draws form old_name a s existing
  ]

  -- After `Remove`; the error of `Save` is only logged.
  pub removing : App H → Sys H → Outcome (Unit {0}) × Config → Handled H
  removing a s (ok done, cfg) =
      let (e, d) = save H.os V.yaml cfg s.disk in
      (
        elim e as (λ _. Response) [
          | hang ↦ waiting
          | _ ↦ redirect "/environments?msg=Environment+deleted"
        ],
        with_cfg H a cfg,
        record s { disk = d },
      )
  removing a s (err e, cfg) = (redirect ("/environments?msg=" <> e), with_cfg H a cfg, s)
  removing a s (hang, cfg) = (waiting, with_cfg H a cfg, s)

  unfoldable pub delete_environment : String → App H → Sys H → Handled H
  unfolding removing
  delete_environment name a s = removing a s (remove a.run.cfg name)
