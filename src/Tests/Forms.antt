-- ===== src/Tests/Forms.antt =====
-- The form of an environment, a request and a snippet of handlers.go and routes.go.
use tcl_script_runner.Prelude.{[], ◌∷◌, ◌≡◌, ◌≤◌, length, take, refl, arith}
use tcl_script_runner.Prelude.Text.{trim_space}
use tcl_script_runner.Prelude.Utf8.{to_bytes}
use tcl_script_runner.Config.{new_environment}
use tcl_script_runner.Web.Form.{Form, parse_labels, parse_env_form}
use tcl_script_runner.Web.Form.Filled.{IsPlain, filled_in, parse_env_form-filled_in}
use tcl_script_runner.Web.Routes.{routes}
use tcl_script_runner.Web.Routes.Patterns.{hits, hits-routes}
use tcl_script_runner.Web.View.{snippet}
use tcl_script_runner.Web.View.Snippets.{snippet-Cut}
use tcl_script_runner.Tests.Jobs.{north}

trimmed : (trim_space "north" ≡ "north") × (trim_space "10.0.0.1" ≡ "10.0.0.1")
unfolding trim_space
trimmed = (refl, refl)

trimmed_user : trim_space "admin" ≡ "admin"
unfolding trim_space
trimmed_user = refl

not_trimmed : trim_space "" ≡ ""
unfolding trim_space
not_trimmed = refl

plain : IsPlain north
unfolding new_environment
plain = record {
  name = trimmed.0;
  becs_host = trimmed.1;
  username = trimmed_user;
  jump_host = not_trimmed;
  jump_user = not_trimmed;
  becs_port = (omega arith, λ h. cc h);
  port = (omega arith, λ h. cc h);
  remote_port = (omega arith, λ h. cc h);
  local_port = omega arith;
  jump_port = omega arith;
  keepalive = omega arith;
}

abbrev north_form : Form
north_form = filled_in north ("site" ∷ []) ("a" ∷ [])

parse_env_form-filled_in_example : parse_env_form north_form ≡ record north {
  password = "";
  ssh = record north.ssh { password = ""; key_passphrase = "" };
  wireguard = record north.wireguard { private_key = ""; preshared_key = "" };
  labels = parse_labels north_form;
}
parse_env_form-filled_in_example = parse_env_form-filled_in north ("site" ∷ []) ("a" ∷ []) plain

hits-routes_example : hits "POST" ("environments" ∷ "north" ∷ []) routes ≤ 1
hits-routes_example = hits-routes "POST" ("environments" ∷ "north" ∷ [])

snippet-Cut_example :
    (length (snippet "a body") ≤ 123) × (take 120 (snippet "a body") ≡ take 120 (to_bytes "a body"))
snippet-Cut_example = snippet-Cut "a body"
