-- ===== src/Tunnel/Kinds/Releases.antt =====
-- ssh.go and wireguard.go against the contract of the interface.
use tcl_script_runner.Prelude.{String, none, some, List, ◌≡◌, refl}
use tcl_script_runner.Config.{SshTunnelConfig, WireGuardConfig}
use tcl_script_runner.Tunnel.Resources.{Handle}
use tcl_script_runner.Tunnel.Contract.{IsNew, ssh, wireguard, Releases}
use tcl_script_runner.Tunnel.Ssh.{SshLibrary, new_ssh}
use tcl_script_runner.Tunnel.Ssh.Laws as SshLaws
use tcl_script_runner.Tunnel.Ssh.Tracks as SshTracks
use tcl_script_runner.Tunnel.WireGuard.{WireGuardLibrary, new_wireguard}
use tcl_script_runner.Tunnel.WireGuard.Laws as WireGuardLaws
use tcl_script_runner.Tunnel.Kinds.{kinds, connect_any, disconnect_any}

module _ {World : Type 0} (S : SshLibrary World) (W : WireGuardLibrary World)
    (live : World → List Handle) (TS : SshTracks.Tracks S live)
    (TW : WireGuardLaws.Tracks W live) where
  new_ssh-IsIdle :
      (cfg : SshTunnelConfig) (password passphrase : String)
      → SshTracks.IsIdle (new_ssh cfg password passphrase)
  unfolding new_ssh
  new_ssh-IsIdle cfg password passphrase = record { client = refl; jump = refl; listener = refl }

  new_wireguard-IsIdle :
      (cfg : WireGuardConfig) (key psk : String) → WireGuardLaws.IsIdle (new_wireguard cfg key psk)
  unfolding new_wireguard
  new_wireguard-IsIdle cfg key psk = record { dev = refl; tnet = refl }

  failed_any :
      (t : (kinds S W).Tunnel) (w : World) {e : String}
      → IsNew (kinds S W) t
      → ((kinds S W).connect t w).0 ≡ some e
      → live ((kinds S W).connect t w).2 ≡ live w
  unfolding kinds connect_any
  failed_any t w (ssh cfg password passphrase) q =
      SshLaws.live-connect_failed S live TS (new_ssh cfg password passphrase) w
        (new_ssh-IsIdle cfg password passphrase) q
  failed_any t w (wireguard cfg key psk) q =
      WireGuardLaws.live-connect_failed W live TW (new_wireguard cfg key psk) w
        (new_wireguard-IsIdle cfg key psk) q

  harmless_any :
      (t : (kinds S W).Tunnel) (w v : World) {e : String}
      → IsNew (kinds S W) t
      → ((kinds S W).connect t w).0 ≡ some e
      → live ((kinds S W).disconnect ((kinds S W).connect t w).1 v).2 ≡ live v
  unfolding kinds connect_any disconnect_any
  harmless_any t w v (ssh cfg password passphrase) q =
      SshLaws.live-disconnect_failed S live TS (new_ssh cfg password passphrase) w v
        (new_ssh-IsIdle cfg password passphrase) q
  harmless_any t w v (wireguard cfg key psk) q =
      WireGuardLaws.live-disconnect_failed W live TW (new_wireguard cfg key psk) w v
        (new_wireguard-IsIdle cfg key psk) q

  released_any :
      (t : (kinds S W).Tunnel) (w v : World)
      → IsNew (kinds S W) t
      → ((kinds S W).connect t w).0 ≡ none
      → live v ≡ live ((kinds S W).connect t w).2
      → live ((kinds S W).disconnect ((kinds S W).connect t w).1 v).2 ≡ live w
  unfolding kinds connect_any disconnect_any
  released_any t w v (ssh cfg password passphrase) q e =
      SshLaws.live-disconnect-connect S live TS (new_ssh cfg password passphrase) w v
        (new_ssh-IsIdle cfg password passphrase) q e
  released_any t w v (wireguard cfg key psk) q e =
      WireGuardLaws.live-disconnect-connect W live TW (new_wireguard cfg key psk) w v
        (new_wireguard-IsIdle cfg key psk) q e

  -- If every call that opens a handle adds it to the open ones or fails and adds nothing, a
  -- handshake and a device take over what they are given, and a Close releases its handle even
  -- if it fails, then both tunnels keep the contract of the interface. A new tunnel whose
  -- Connect fails leaves nothing open, and its Disconnect then changes nothing of what is open.
  -- One that connects has, after Disconnect, nothing open, if between the two others opened and
  -- closed nothing.
  pub kinds-Releases : Releases (kinds S W) live
  kinds-Releases = record {
    failed = λ t w n q. failed_any t w n q;
    harmless = λ t w v n q. harmless_any t w v n q;
    released = λ t w v n q e. released_any t w v n q e;
  }
