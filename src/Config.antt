-- ===== src/Config.antt =====
-- internal/config/config.go: the configuration's types and defaults.
pub mod Crud
pub mod Crypto
pub mod Files
use tcl_script_runner.Prelude.{String, Bool, true, List, []}
use tcl_script_runner.Prelude.Int.{ℤ, pos}

-- Go's `TunnelType` is a string, which a hand-written file may set to anything.
abbrev pub TunnelType : Type 0
TunnelType = String

abbrev pub tunnel_none : TunnelType
tunnel_none = "none"

abbrev pub tunnel_ssh : TunnelType
tunnel_ssh = "ssh"

abbrev pub tunnel_wireguard : TunnelType
tunnel_wireguard = "wireguard"

pub record SshTunnelConfig : Type 0 where
  pub host : String
  pub port : ℤ
  pub user : String
  pub auth_method : String
  pub key_path : String
  pub key_passphrase : String
  pub password : String
  pub local_port : ℤ
  pub remote_host : String
  pub remote_port : ℤ
  pub jump_host : String
  pub jump_port : ℤ
  pub jump_user : String

pub record WireGuardConfig : Type 0 where
  pub private_key : String
  pub peer_public_key : String
  pub endpoint : String
  pub allowed_ips : String
  pub address : String
  pub dns : String
  pub preshared_key : String
  pub persistent_keepalive : ℤ

-- `labels` is a Go map, as an association list without repeated keys.
pub record Environment : Type 0 where
  pub name : String
  pub becs_host : String
  pub becs_port : ℤ
  pub username : String
  pub password : String
  pub tunnel_type : TunnelType
  pub ssh : SshTunnelConfig
  pub wireguard : WireGuardConfig
  pub enabled : Bool
  pub notes : String
  pub labels : List (String × String)

pub record Config : Type 0 where
  pub poll_interval_seconds : ℤ
  pub default_timeout_seconds : ℤ
  pub environments : List Environment
  pub path : String

-- Go's zero values of the two tunnel records.
abbrev pub no_ssh : SshTunnelConfig
no_ssh = record {
  host = "";
  port = pos 0;
  user = "";
  auth_method = "";
  key_path = "";
  key_passphrase = "";
  password = "";
  local_port = pos 0;
  remote_host = "";
  remote_port = pos 0;
  jump_host = "";
  jump_port = pos 0;
  jump_user = "";
}

abbrev pub no_wireguard : WireGuardConfig
no_wireguard = record {
  private_key = "";
  peer_public_key = "";
  endpoint = "";
  allowed_ips = "";
  address = "";
  dns = "";
  preshared_key = "";
  persistent_keepalive = pos 0;
}

unfoldable pub default_config : Config
default_config = record {
  poll_interval_seconds = pos 5;
  default_timeout_seconds = pos 300;
  environments = [];
  path = "";
}

unfoldable pub new_environment : Environment
new_environment = record {
  name = "";
  becs_host = "";
  becs_port = pos 4499;
  username = "";
  password = "";
  tunnel_type = tunnel_none;
  ssh = record no_ssh { port = pos 22; remote_port = pos 4499 };
  wireguard = no_wireguard;
  enabled = true;
  notes = "";
  labels = [];
}
