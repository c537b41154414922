-- ===== src/Web/Environments/Sound.antt =====
-- internal/web/handlers.go: what holds between two requests, and what encryption keeps of it.
pub mod Handlers
use mathlib.Core.Path.{subst}
use tcl_script_runner.Prelude.{
  ℕ, String, ◌<>◌, ◌==◌, Bool, true, false, Option, none, some, List, [], ◌∷◌, ◌≡◌, ◌≢◌, ◌⊎◌, inl,
  inr, refl, sym, ap, ◌∙◌, arith, Bool-cases, if◌then◌else◌,
}
use tcl_script_runner.Prelude.Utf8.{Bytes}
use tcl_script_runner.Outcome.{Outcome, ok, err, hang, ◌>>=◌, wrap, wrap-ne-hang, >>=-ne-hang}
use tcl_script_runner.Config.{Config, Environment}
use tcl_script_runner.Config.Crud.{find_by_name, add, update, remove}
use tcl_script_runner.Config.Crud.Lookup.{lookup, env_of, NamesDiffer}
use tcl_script_runner.Config.Crud.Reference.{env_of-find_by_name, add_lem, remove_lem, update_lem}
use tcl_script_runner.Config.Crud.Unique.{perform, added, updated, removed, perform-NamesDiffer}
use tcl_script_runner.Config.Crypto.{IsLawful, SetsUp, encrypt}
use tcl_script_runner.Config.Crypto.Returns.{new_gcm_returns}
use tcl_script_runner.Config.Files.{save}
use tcl_script_runner.Config.Files.Returns.{save_returns}
use tcl_script_runner.Runner.Host.{Host, Sys}
use tcl_script_runner.Web.Form.{Form, form_value, parse_env_form}
use tcl_script_runner.Web.App.{
  Services, App, Handled, Response, Page, page_name, page, has, redirect, failure, waiting,
  environment_form, render,
}
use tcl_script_runner.Web.App.Templates.{HasPages}
use tcl_script_runner.Web.Environments.{
  Draws, Credential, becs_password, ssh_password, ssh_key_passphrase, wg_private_key,
  wg_preshared_key, no_environment, assign, maybe_encrypt, encrypt_tunnel_creds, with_cfg, saved,
  changed, adding, with_password, create_environment, updating, with_kept, revised,
  update_environment, removing, delete_environment,
}
use tcl_script_runner.Web.Environments.Opened.{
  Full, Opens, Openable, AllOpenable, encrypt-Opens, add-AllOpenable, update-AllOpenable,
  remove-AllOpenable, get-Openable,
}

-- What holds between two requests: the names differ, every credential that is set decrypts under the
-- passphrase, every page has its template, and the runner is idle and has the same directory.
pub record IsSound {H : Host} (a : App H) : Type 0 where
  pub differ : NamesDiffer a.run.cfg.environments
  pub openable : AllOpenable H.ciphers a.passphrase a.run.cfg.environments
  pub pages : HasPages a
  pub idle : a.run.busy ≡ false
  pub dir : a.run.data_dir ≡ a.data_dir

-- A sound application, and an answer.
abbrev pub Sound : {H : Host} → Handled H → Type 0
Sound x = IsSound x.1 × (x.0 ≢ waiting)

-- The random source gives what is asked for, or an error.
abbrev pub IsRandom : Draws → Type 0
IsRandom draws = (c : Credential) → Full 16 (draws c).0 × Full 12 (draws c).1

module _ (H : Host) where
  has_answer : (b : Bool) (p : Page) (m : String) → (if b then page p else failure 500 m) ≢ waiting
  has_answer true p m h = cc h
  has_answer false p m h = cc h

  pub render_answers : (a : App H) (p : Page) → render H a p ≢ waiting
  unfolding render
  render_answers a p = has_answer (has (page_name p) a.tmpls) p _

  with_cfg-IsSound :
      (a : App H) (cfg : Config)
      → IsSound a
      → NamesDiffer cfg.environments
      → AllOpenable H.ciphers a.passphrase cfg.environments
      → IsSound (with_cfg H a cfg)
  with_cfg-IsSound a cfg k u o = record {
    differ = u;
    openable = o;
    pages = k.pages;
    idle = k.idle;
    dir = k.dir;
  }

  shown-Sound : (a : App H) (p : Page) (s : Sys H) → IsSound a → Sound (render H a p, a, s)
  shown-Sound a p s k = (k, render_answers a p)

-- What the handlers rely on: lawful ciphers whose set-up returns, and writing calls that return.
pub record Trusts (H : Host) (V : Services H) : Type 0 where
  pub lawful : IsLawful H.ciphers
  pub ciphers : SetsUp H.ciphers
  pub temps : (dir pattern : String) (s : H.os.State) → (H.os.create_temp dir pattern s).0 ≢ hang
  pub marshals : (c : Config) → V.yaml.marshal c ≢ hang

module _ (H : Host) (V : Services H) (K : Trusts H V) (passphrase : String) where
  abbrev Usable : Outcome String → Type 0
  Usable (ok stored) = Opens H.ciphers passphrase stored
  Usable (err m) = Unit
  Usable hang = ⊥

  abbrev Secured : Outcome (Unit {0}) × Environment → Type 0
  Secured (ok done, env) = Openable H.ciphers passphrase env
  Secured (err m, env) = Unit
  Secured (hang, env) = ⊥

  Full-ne-hang : (n : ℕ) (r : Outcome Bytes) → Full n r → r ≢ hang
  Full-ne-hang n (ok bytes) f h = cc h
  Full-ne-hang n (err m) f h = cc h
  Full-ne-hang n hang f h = f

  encrypt_returns :
      (draw : Outcome Bytes × Outcome Bytes) (plain : String)
      → Full 16 draw.0
      → Full 12 draw.1
      → encrypt H.ciphers draw.0 draw.1 plain passphrase ≢ hang
  unfolding encrypt
  encrypt_returns draw plain s n =
      >>=-ne-hang _ _ (wrap-ne-hang _ draw.0 (Full-ne-hang 16 draw.0 s)) λ salt.
        >>=-ne-hang _ _ (new_gcm_returns H.ciphers K.ciphers passphrase _)
          λ gcm. >>=-ne-hang _ _ (wrap-ne-hang _ draw.1 (Full-ne-hang 12 draw.1 n)) λ nonce h. cc h

  by_outcome :
      (m o : Outcome String)
      → m ≡ o
      → m ≢ hang
      → ((stored : String) → m ≡ ok stored → Opens H.ciphers passphrase stored)
      → Usable o
  by_outcome m (ok stored) e h k = k stored e
  by_outcome m (err x) e h k = tt
  by_outcome m hang e h k = absurd (h e)

  encrypt-Usable :
      (draw : Outcome Bytes × Outcome Bytes) (plain : String)
      → Full 16 draw.0
      → Full 12 draw.1
      → Usable (encrypt H.ciphers draw.0 draw.1 plain passphrase)
  encrypt-Usable draw plain s n =
      by_outcome _ _ refl (encrypt_returns draw plain s n)
        (λ stored e. encrypt-Opens H.ciphers passphrase draw.0 draw.1 plain K.lawful s n e)

  if_Usable : (b : Bool) (m o : Outcome String) → Usable m → Usable o → Usable (if b then m else o)
  if_Usable true m o h k = h
  if_Usable false m o h k = k

  maybe_encrypt-Usable :
      (draw : Outcome Bytes × Outcome Bytes) (field existing : String)
      → Full 16 draw.0
      → Full 12 draw.1
      → Opens H.ciphers passphrase existing
      → Usable (maybe_encrypt H passphrase draw field existing)
  unfolding maybe_encrypt
  maybe_encrypt-Usable draw field existing s n o =
      if_Usable (field == "") (ok existing) _ o (encrypt-Usable draw field s n)

  assign-Secured :
      (prefix : String) (m : Outcome String) (put : String → Environment)
      (next : Environment → Outcome (Unit {0}) × Environment)
      → Usable m
      → ((v : String) → Opens H.ciphers passphrase v → Secured (next (put v)))
      → Secured (assign prefix m put next)
  assign-Secured prefix (ok v) put next u k = k v u
  assign-Secured prefix (err e) put next u k = tt
  assign-Secured prefix hang put next u k = u

  encrypt_tunnel_creds-Secured :
      (draws : Draws) (form : Form) (env existing : Environment)
      → IsRandom draws
      → Opens H.ciphers passphrase env.password
      → Openable H.ciphers passphrase existing
      → Secured (encrypt_tunnel_creds H passphrase draws form env existing)
  unfolding encrypt_tunnel_creds
  encrypt_tunnel_creds-Secured draws form env existing r o e =
      assign-Secured _ _ _ _
        (maybe_encrypt-Usable (draws ssh_password) _ _ (r ssh_password).0 (r ssh_password).1
          e.ssh_password)
        λ p op.
          assign-Secured _ _ _ _
            (maybe_encrypt-Usable (draws ssh_key_passphrase) _ _ (r ssh_key_passphrase).0
              (r ssh_key_passphrase).1 e.key_passphrase)
            λ k ok_.
              assign-Secured _ _ _ _
                (maybe_encrypt-Usable (draws wg_private_key) _ _ (r wg_private_key).0
                  (r wg_private_key).1 e.private_key)
                λ w ow.
                  assign-Secured _ _ _ _
                    (maybe_encrypt-Usable (draws wg_preshared_key) _ _ (r wg_preshared_key).0
                      (r wg_preshared_key).1 e.preshared_key)
                    λ q oq. record {
                      password = o;
                      ssh_password = op;
                      key_passphrase = ok_;
                      private_key = ow;
                      preshared_key = oq;
                    }
