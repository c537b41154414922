-- ===== src/Runner/Credentials/Returns.antt =====
-- runner.go: whether `buildTunnel` returns.
use tcl_script_runner.Prelude.{String, ◌==◌, not, ◌&&◌, ◌≢◌}
use tcl_script_runner.Outcome.{hang, wrap-ne-hang, >>=-ne-hang, if-ne-hang}
use tcl_script_runner.Config.{
  Environment, SshTunnelConfig, WireGuardConfig, tunnel_none, tunnel_ssh, tunnel_wireguard,
}
use tcl_script_runner.Config.Crypto.{SetsUp}
use tcl_script_runner.Config.Crypto.Returns.{decrypt_returns}
use tcl_script_runner.Runner.Host.{Host}
use tcl_script_runner.Runner.Credentials.{
  build_tunnel, build_ssh, build_wireguard, ssh_secrets, preshared,
}

module _ (H : Host) (ciphers : SetsUp H.ciphers) (passphrase : String) where
  ssh_secrets_returns : (ssh : SshTunnelConfig) → ssh_secrets H passphrase ssh ≢ hang
  unfolding ssh_secrets
  ssh_secrets_returns ssh =
      if-ne-hang (ssh.auth_method == "password") _ _
        (>>=-ne-hang _ _ (wrap-ne-hang _ _ (decrypt_returns H.ciphers ciphers _ _)) (λ _ h. cc h))
        (if-ne-hang (ssh.auth_method == "key" && not (ssh.key_passphrase == "")) _ _
          (>>=-ne-hang _ _ (wrap-ne-hang _ _ (decrypt_returns H.ciphers ciphers _ _)) (λ _ h. cc h))
          (λ h. cc h))

  preshared_returns : (wg : WireGuardConfig) → preshared H passphrase wg ≢ hang
  unfolding preshared
  preshared_returns wg =
      if-ne-hang (wg.preshared_key == "") _ _ (λ h. cc h)
        (wrap-ne-hang _ _ (decrypt_returns H.ciphers ciphers _ _))

  pub build_tunnel_returns : (env : Environment) → build_tunnel H passphrase env ≢ hang
  unfolding build_tunnel build_ssh build_wireguard
  build_tunnel_returns env =
      if-ne-hang (env.tunnel_type == tunnel_none) _ _ (λ h. cc h)
        (if-ne-hang (env.tunnel_type == tunnel_ssh) _ _
          (>>=-ne-hang _ _ (>>=-ne-hang _ _ (ssh_secrets_returns env.ssh) (λ _ h. cc h))
            (λ _ h. cc h))
          (if-ne-hang (env.tunnel_type == tunnel_wireguard) _ _
            (>>=-ne-hang _ _
              (>>=-ne-hang _ _ (wrap-ne-hang _ _ (decrypt_returns H.ciphers ciphers _ _))
                λ key. >>=-ne-hang _ _ (preshared_returns env.wireguard) (λ _ h. cc h))
              (λ _ h. cc h))
            (λ h. cc h)))
