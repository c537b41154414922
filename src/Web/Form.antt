-- ===== src/Web/Form.antt =====
-- internal/web/handlers.go: what the handlers read from a form.
pub mod Labels
pub mod Numbers
pub mod Filled
use Prim.Native.Char.{Char, code}
use tcl_script_runner.Prelude.{
  ℕ, zero, suc, ◌+◌, ◌-◌, ◌*◌, String, ◌<>◌, ◌==◌, Bool, true, false, ◌&&◌, Option, none, some,
  List, [], ◌∷◌, leb, ltb, eqb, if◌then◌else◌,
}
use tcl_script_runner.Prelude.Int.{ℤ, pos, negsuc, is_zero}
use tcl_script_runner.Prelude.Text.{trim_space}
use tcl_script_runner.Config.{Environment, no_ssh, no_wireguard}

-- `r.Form` once it is parsed: Go's map from a field's name to its values in the order of the form.
abbrev pub Form : Type 0
Form = List (String × List String)

-- `r.Form[name]`, which is empty for a field that is missing.
unfoldable pub values : String → Form → List String
values name [] = []
values name ((field, vs) ∷ fields) = if field == name then vs else values name fields

-- The first of some values, or the empty text.
abbrev pub first : List String → String
first [] = ""
first (v ∷ vs) = v

-- `r.FormValue`
unfoldable pub form_value : String → Form → String
form_value name form = first (values name form)

-- The digits of `strconv.Atoi` after those that made `acc`; `none` is a character that is no digit.
unfoldable pub digits_from : ℕ → String → Option ℕ
digits_from acc String.[] = some acc
digits_from acc (String.◌∷◌ c s) =
    let rest = digits_from (acc * 10 + (code c - b'0')) s in
    if leb b'0' (code c) && leb (code c) b'9' then rest else none

-- The magnitude, which has at least one digit.
unfoldable pub magnitude : String → Option ℕ
unfolding digits_from
magnitude String.[] = none
magnitude s = digits_from 0 s

-- The bounds of an `int` of 64 bits.
abbrev max_int : ℕ
max_int = 9223372036854775807

unfoldable pub positive : Option ℕ → Option ℤ
positive none = none
positive (some n) = if leb n max_int then some (pos n) else none

unfoldable pub negative : Option ℕ → Option ℤ
negative none = none
negative (some zero) = some (pos 0)
negative (some (suc n)) = if leb n max_int then some (negsuc n) else none

-- `strconv.Atoi`; `none` is any of its errors.
unfoldable pub atoi : String → Option ℤ
unfolding magnitude positive negative
atoi String.[] = none
atoi (String.◌∷◌ c s) =
    if eqb (code c) b'-'
    then negative (magnitude s)
    else if eqb (code c) b'+'
    then positive (magnitude s)
    else positive (magnitude (String.◌∷◌ c s))

-- The value that `intField` takes from what `Atoi` gave.
unfoldable pub or_default : ℤ → Option ℤ → ℤ
or_default def none = def
or_default def (some v) = if is_zero v then def else v

unfoldable pub int_field : String → ℤ → Form → ℤ
unfolding or_default
int_field name def form = or_default def (atoi (form_value name form))

-- `labels[k] = v`
unfoldable pub put_label : String → String → List (String × String) → List (String × String)
put_label k v [] = (k, v) ∷ []
put_label k v ((key, value) ∷ labels) =
    if key == k then (k, v) ∷ labels else (key, value) ∷ put_label k v labels

-- The loop over the keys, with the values from the same index on.
unfoldable pub label_rows :
    List String → List String → List (String × String) → List (String × String)
label_rows [] vals labels = labels
label_rows (k ∷ keys) vals labels =
    let key = trim_space k in
    label_rows keys (elim vals [ [] ↦ [] | v ∷ vs ↦ vs ])
      (if key == "" then labels else put_label key (trim_space (first vals)) labels)

-- A nil map is an empty one.
unfoldable pub parse_labels : Form → List (String × String)
unfolding label_rows
parse_labels form = label_rows (values "label_key" form) (values "label_value" form) []

unfoldable pub parse_env_form : Form → Environment
parse_env_form form = record {
  name = trim_space (form_value "name" form);
  becs_host = trim_space (form_value "becs_host" form);
  becs_port = int_field "becs_port" (pos 4499) form;
  username = trim_space (form_value "username" form);
  password = "";
  tunnel_type = form_value "tunnel_type" form;
  ssh = record no_ssh {
    host = form_value "ssh_host" form;
    port = int_field "ssh_port" (pos 22) form;
    user = form_value "ssh_user" form;
    auth_method = form_value "ssh_auth_method" form;
    key_path = form_value "ssh_key_path" form;
    local_port = int_field "local_port" (pos 0) form;
    remote_host = form_value "remote_host" form;
    remote_port = int_field "remote_port" (pos 4499) form;
    jump_host = trim_space (form_value "ssh_jump_host" form);
    jump_port = int_field "ssh_jump_port" (pos 0) form;
    jump_user = trim_space (form_value "ssh_jump_user" form);
  };
  wireguard = record no_wireguard {
    peer_public_key = form_value "wg_peer_public_key" form;
    endpoint = form_value "wg_endpoint" form;
    allowed_ips = form_value "wg_allowed_ips" form;
    address = form_value "wg_address" form;
    dns = form_value "wg_dns" form;
    persistent_keepalive = int_field "wg_persistent_keepalive" (pos 0) form;
  };
  enabled = form_value "enabled" form == "on";
  notes = form_value "notes" form;
  labels = parse_labels form;
}
