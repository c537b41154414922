-- ===== src/Web/Form/Filled.antt =====
-- internal/web/handlers.go: `parseEnvForm` on a form that holds an environment.
use tcl_script_runner.Prelude.{
  zero, suc, String, ◌==◌, Bool, true, false, List, [], ◌∷◌, ◌≡◌, ◌≢◌, refl, if◌then◌else◌,
}
use tcl_script_runner.Prelude.Int.{ℤ, pos, negsuc, show_ℤ, is_zero}
use tcl_script_runner.Prelude.Text.{trim_space, show_ℕ}
use tcl_script_runner.Config.{Environment}
use tcl_script_runner.Web.Form.{
  Form, values, form_value, atoi, or_default, int_field, parse_labels, parse_env_form,
}
use tcl_script_runner.Web.Form.Numbers.{InRange, int_field-show_ℤ}

-- What a browser sends of a checkbox.
abbrev checked : Bool → List String
checked b = if b then "on" ∷ [] else []

-- The page leaves the field of the jump port empty for a zero.
abbrev port_text : ℤ → String
port_text n = if is_zero n then "" else show_ℤ n

-- The names of the page's fields, filled in with an environment, and the rows of the labels. The fields
-- of the credentials come with what is typed into them, and are not read here.
abbrev pub filled_in : Environment → List String → List String → Form
filled_in e keys vals =
    ("name", e.name ∷ [])
    ∷ ("enabled", checked e.enabled)
    ∷ ("becs_host", e.becs_host ∷ [])
    ∷ ("becs_port", show_ℤ e.becs_port ∷ [])
    ∷ ("username", e.username ∷ [])
    ∷ ("notes", e.notes ∷ [])
    ∷ ("tunnel_type", e.tunnel_type ∷ [])
    ∷ ("ssh_host", e.ssh.host ∷ [])
    ∷ ("ssh_port", show_ℤ e.ssh.port ∷ [])
    ∷ ("ssh_user", e.ssh.user ∷ [])
    ∷ ("ssh_auth_method", e.ssh.auth_method ∷ [])
    ∷ ("ssh_key_path", e.ssh.key_path ∷ [])
    ∷ ("ssh_jump_host", e.ssh.jump_host ∷ [])
    ∷ ("ssh_jump_port", port_text e.ssh.jump_port ∷ [])
    ∷ ("ssh_jump_user", e.ssh.jump_user ∷ [])
    ∷ ("local_port", show_ℤ e.ssh.local_port ∷ [])
    ∷ ("remote_host", e.ssh.remote_host ∷ [])
    ∷ ("remote_port", show_ℤ e.ssh.remote_port ∷ [])
    ∷ ("wg_address", e.wireguard.address ∷ [])
    ∷ ("wg_endpoint", e.wireguard.endpoint ∷ [])
    ∷ ("wg_peer_public_key", e.wireguard.peer_public_key ∷ [])
    ∷ ("wg_allowed_ips", e.wireguard.allowed_ips ∷ [])
    ∷ ("wg_dns", e.wireguard.dns ∷ [])
    ∷ ("wg_persistent_keepalive", show_ℤ e.wireguard.persistent_keepalive ∷ [])
    ∷ ("label_key", keys)
    ∷ ("label_value", vals)
    ∷ []

-- The texts that are trimmed have no blanks around them, the numbers fit into 64 bits, and those that
-- are replaced by a default if they are zero are not.
pub record IsPlain (e : Environment) : Type 0 where
  pub name : trim_space e.name ≡ e.name
  pub becs_host : trim_space e.becs_host ≡ e.becs_host
  pub username : trim_space e.username ≡ e.username
  pub jump_host : trim_space e.ssh.jump_host ≡ e.ssh.jump_host
  pub jump_user : trim_space e.ssh.jump_user ≡ e.ssh.jump_user
  pub becs_port : InRange e.becs_port × (e.becs_port ≢ pos 0)
  pub port : InRange e.ssh.port × (e.ssh.port ≢ pos 0)
  pub remote_port : InRange e.ssh.remote_port × (e.ssh.remote_port ≢ pos 0)
  pub local_port : InRange e.ssh.local_port
  pub jump_port : InRange e.ssh.jump_port
  pub keepalive : InRange e.wireguard.persistent_keepalive

checked_on :
    (b : Bool) (form : Form)
    → values "enabled" form ≡ checked b
    → (form_value "enabled" form == "on") ≡ b
unfolding form_value
checked_on true form e = rw e
checked_on false form e = rw e

-- A number whose default is 0.
int_field-shown :
    (name : String) (v : ℤ) (form : Form)
    → form_value name form ≡ show_ℤ v
    → InRange v
    → int_field name (pos 0) form ≡ v
unfolding int_field show_ℤ show_ℕ
int_field-shown name (pos zero) form e b = rw e (unfold atoi in unfold or_default in refl)
int_field-shown name (pos (suc n)) form e b =
    int_field-show_ℤ name (pos 0) (pos (suc n)) form e b (λ h. cc h)
int_field-shown name (negsuc n) form e b =
    int_field-show_ℤ name (pos 0) (negsuc n) form e b (λ h. cc h)

int_field-port :
    (name : String) (v : ℤ) (form : Form)
    → form_value name form ≡ port_text v
    → InRange v
    → int_field name (pos 0) form ≡ v
unfolding int_field
int_field-port name (pos zero) form e b = rw e (unfold atoi in unfold or_default in refl)
int_field-port name (pos (suc n)) form e b = int_field-shown name (pos (suc n)) form e b
int_field-port name (negsuc n) form e b = int_field-shown name (negsuc n) form e b

-- From a form that holds an environment's fields under the names of the page, parseEnvForm gives
-- that environment back, with empty credentials and the labels that parseLabels reads, if the
-- texts that it trims have no blanks around them, the numbers fit into 64 bits, and the ports of
-- the BECS, SSH and remote hosts are not 0.
pub parse_env_form-filled_in :
    (e : Environment) (keys vals : List String)
    → IsPlain e
    → parse_env_form (filled_in e keys vals) ≡ record e {
      password = "";
      ssh = record e.ssh { password = ""; key_passphrase = "" };
      wireguard = record e.wireguard { private_key = ""; preshared_key = "" };
      labels = parse_labels (filled_in e keys vals);
    }
unfolding parse_env_form form_value values
parse_env_form-filled_in e keys vals p =
    let form = filled_in e keys vals in
    rw (
      p.name,
      p.becs_host,
      p.username,
      p.jump_host,
      p.jump_user,
      int_field-show_ℤ "becs_port" (pos 4499) e.becs_port form refl p.becs_port.0 p.becs_port.1,
      int_field-show_ℤ "ssh_port" (pos 22) e.ssh.port form refl p.port.0 p.port.1,
      int_field-show_ℤ "remote_port" (pos 4499) e.ssh.remote_port form refl p.remote_port.0
          p.remote_port.1,
      int_field-shown "local_port" e.ssh.local_port form refl p.local_port,
      int_field-port "ssh_jump_port" e.ssh.jump_port form refl p.jump_port,
      int_field-shown "wg_persistent_keepalive" e.wireguard.persistent_keepalive form refl
          p.keepalive,
      checked_on e.enabled form refl,
    )
