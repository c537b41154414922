-- ===== src/Tunnel.antt =====
-- internal/tunnel/tunnel.go: the interface `Tunnel`, with the constructors of its implementations.
pub mod Attempt
pub mod Resources
pub mod Ssh
pub mod WireGuard
pub mod Contract
pub mod Kinds
use tcl_script_runner.Prelude.{String, Bool, Option}
use tcl_script_runner.Config.{SshTunnelConfig, WireGuardConfig}

-- `World` is what the calls act on beside the tunnel object. `dialer` says whether `Dialer` gives
-- a dial function. An error is its text; `none` is nil.
pub record Tunnels (World : Type 0) : Type 1 where
  pub Tunnel : Type 0
  pub new_ssh : SshTunnelConfig → String → String → Tunnel
  pub new_wireguard : WireGuardConfig → String → String → Tunnel
  pub connect : Tunnel → World → Option String × Tunnel × World
  pub disconnect : Tunnel → World → Option String × Tunnel × World
  pub dialer : Tunnel → Bool
