-- ===== src/Tunnel/Kinds.antt =====
-- internal/tunnel: the two implementations behind the interface `Tunnel`.
pub mod Releases
use tcl_script_runner.Prelude.{String, Option, Bool}
use tcl_script_runner.Tunnel.{Tunnels}
use tcl_script_runner.Tunnel.Ssh
use tcl_script_runner.Tunnel.Ssh.{Ssh, SshLibrary, new_ssh}
use tcl_script_runner.Tunnel.WireGuard
use tcl_script_runner.Tunnel.WireGuard.{WireGuard, WireGuardLibrary, new_wireguard}

-- A value of the interface.
pub data AnyTunnel : Type 0 where
  by_ssh : Ssh → AnyTunnel
  by_wireguard : WireGuard → AnyTunnel

module _ {World : Type 0} (S : SshLibrary World) (W : WireGuardLibrary World) where
  abbrev pub lift :
      {A : Type 0} → (A → AnyTunnel) → Option String × A × World → Option String × AnyTunnel × World
  lift f (e, t, w) = (e, f t, w)

  unfoldable pub connect_any : AnyTunnel → World → Option String × AnyTunnel × World
  connect_any (by_ssh t) w = lift by_ssh (Ssh.connect S t w)
  connect_any (by_wireguard t) w = lift by_wireguard (WireGuard.connect W t w)

  unfoldable pub disconnect_any : AnyTunnel → World → Option String × AnyTunnel × World
  disconnect_any (by_ssh t) w = lift by_ssh (Ssh.disconnect S t w)
  disconnect_any (by_wireguard t) w = lift by_wireguard (WireGuard.disconnect W t w)

  unfoldable pub dialer_any : AnyTunnel → Bool
  dialer_any (by_ssh t) = Ssh.dialer t
  dialer_any (by_wireguard t) = WireGuard.dialer t

  unfoldable pub kinds : Tunnels World
  kinds = record {
    Tunnel = AnyTunnel;
    new_ssh = λ cfg password passphrase. by_ssh (new_ssh cfg password passphrase);
    new_wireguard = λ cfg key psk. by_wireguard (new_wireguard cfg key psk);
    connect = connect_any;
    disconnect = disconnect_any;
    dialer = dialer_any;
  }
