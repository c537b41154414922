-- ===== src/Runner/Credentials.antt =====
-- internal/runner/runner.go: `buildTunnel`.
pub mod Returns
pub mod New
use tcl_script_runner.Prelude.{String, ◌<>◌, ◌==◌, not, ◌&&◌, Option, none, some, if◌then◌else◌}
use tcl_script_runner.Prelude.Text.{quote}
use tcl_script_runner.Outcome.{Outcome, ok, err, wrap, ◌>>=◌}
use tcl_script_runner.Config.{
  Environment, SshTunnelConfig, WireGuardConfig, tunnel_none, tunnel_ssh, tunnel_wireguard,
}
use tcl_script_runner.Config.Crypto.{decrypt}
use tcl_script_runner.Runner.Host.{Host}

module _ (H : Host) where
  abbrev pub Tun : Type 0
  Tun = H.tunnels.Tunnel

  -- The decrypted password and passphrase that the authentication method uses.
  ssh_secrets : String → SshTunnelConfig → Outcome (String × String)
  ssh_secrets passphrase ssh =
      if ssh.auth_method == "password"
      then (wrap "decrypt SSH password: " (decrypt H.ciphers ssh.password passphrase)
          >>= λ password. ok (password, ""))
      else if ssh.auth_method == "key" && not (ssh.key_passphrase == "")
      then (wrap "decrypt SSH key passphrase: " (decrypt H.ciphers ssh.key_passphrase passphrase)
          >>= λ key. ok ("", key))
      else ok ("", "")

  pub build_ssh : String → SshTunnelConfig → Outcome Tun
  unfolding ssh_secrets
  build_ssh passphrase ssh = do
    secrets ← ssh_secrets passphrase ssh
    ok (H.tunnels.new_ssh ssh secrets.0 secrets.1)

  preshared : String → WireGuardConfig → Outcome String
  preshared passphrase wg =
      if wg.preshared_key == ""
      then ok ""
      else wrap "decrypt WireGuard PSK: " (decrypt H.ciphers wg.preshared_key passphrase)

  pub build_wireguard : String → WireGuardConfig → Outcome Tun
  unfolding preshared
  build_wireguard passphrase wg = do
    key ← wrap "decrypt WireGuard private key: " (decrypt H.ciphers wg.private_key passphrase)
    psk ← preshared passphrase wg
    ok (H.tunnels.new_wireguard wg key psk)

  -- `none` is Go's nil tunnel.
  unfoldable pub build_tunnel : String → Environment → Outcome (Option Tun)
  unfolding build_ssh build_wireguard
  build_tunnel passphrase env =
      if env.tunnel_type == tunnel_none
      then ok none
      else if env.tunnel_type == tunnel_ssh
      then (do t ← build_ssh passphrase env.ssh; ok (some t))
      else if env.tunnel_type == tunnel_wireguard
      then (do t ← build_wireguard passphrase env.wireguard; ok (some t))
      else err ("unknown tunnel type " <> quote env.tunnel_type)
