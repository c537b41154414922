-- ===== src/Tunnel/Contract.antt =====
-- internal/tunnel/tunnel.go: what a client of the interface may rely on about what is open.
use tcl_script_runner.Prelude.{String, none, some, List, ◌≡◌}
use tcl_script_runner.Config.{SshTunnelConfig, WireGuardConfig}
use tcl_script_runner.Tunnel.{Tunnels}
use tcl_script_runner.Tunnel.Resources.{Handle}

module _ {World : Type 0} (T : Tunnels World) where
  -- A tunnel as one of the constructors gives it.
  pub data IsNew : T.Tunnel → Type 0 where
    ssh :
        (cfg : SshTunnelConfig) (password passphrase : String)
        → IsNew (T.new_ssh cfg password passphrase)
    wireguard : (cfg : WireGuardConfig) (key psk : String) → IsNew (T.new_wireguard cfg key psk)

  -- A new tunnel whose `Connect` fails has nothing open, and `Disconnect` then does no harm; and one that connects has nothing open after
  -- `Disconnect`, if between the two no handle was opened or closed by others.
  pub record Releases (live : World → List Handle) : Type 0 where
    pub failed :
        (t : T.Tunnel) (w : World) {e : String}
        → IsNew t
        → (T.connect t w).0 ≡ some e
        → live (T.connect t w).2 ≡ live w
    pub harmless :
        (t : T.Tunnel) (w v : World) {e : String}
        → IsNew t
        → (T.connect t w).0 ≡ some e
        → live (T.disconnect (T.connect t w).1 v).2 ≡ live v
    pub released :
        (t : T.Tunnel) (w v : World)
        → IsNew t
        → (T.connect t w).0 ≡ none
        → live v ≡ live (T.connect t w).2
        → live (T.disconnect (T.connect t w).1 v).2 ≡ live w
