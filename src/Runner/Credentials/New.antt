-- ===== src/Runner/Credentials/New.antt =====
-- runner.go: which tunnels `buildTunnel` gives.
use mathlib.Core.Path.{subst}
use tcl_script_runner.Prelude.{String, ◌==◌, Bool, true, false, none, some, ◌≡◌, if◌then◌else◌}
use tcl_script_runner.Outcome.{Outcome, ok, err, hang, ◌>>=◌, >>=-eq-ok, wrap}
use tcl_script_runner.Config.{
  Environment, SshTunnelConfig, WireGuardConfig, tunnel_none, tunnel_ssh, tunnel_wireguard,
}
use tcl_script_runner.Config.Crypto.{decrypt}
use tcl_script_runner.Tunnel.Contract.{IsNew, ssh, wireguard}
use tcl_script_runner.Runner.Host.{Host}
use tcl_script_runner.Runner.Credentials.{
  Tun, build_tunnel, build_ssh, build_wireguard, ssh_secrets, preshared,
}

module _ (H : Host) where
  ok_value : {A : Type 0} {a b : A} → ◌≡◌ {A = Outcome A} (ok a) (ok b) → a ≡ b
  ok_value h = cc h

  build_ssh-IsNew :
      (passphrase : String) (cfg : SshTunnelConfig) (t : Tun H)
      → build_ssh H passphrase cfg ≡ ok t
      → IsNew H.tunnels t
  unfolding build_ssh
  build_ssh-IsNew passphrase cfg t h =
      let (secrets, read, made) = >>=-eq-ok (ssh_secrets H passphrase cfg) _ h in
      subst (IsNew H.tunnels) (ok_value made) (ssh cfg secrets.0 secrets.1)

  build_wireguard-IsNew :
      (passphrase : String) (cfg : WireGuardConfig) (t : Tun H)
      → build_wireguard H passphrase cfg ≡ ok t
      → IsNew H.tunnels t
  unfolding build_wireguard
  build_wireguard-IsNew passphrase cfg t h =
      let (key, read, then_) =
        >>=-eq-ok
          (wrap "decrypt WireGuard private key: " (decrypt H.ciphers cfg.private_key passphrase)) _
          h in
      let (psk, read_psk, made) = >>=-eq-ok (preshared H passphrase cfg) _ then_ in
      subst (IsNew H.tunnels) (ok_value made) (wireguard cfg key psk)

  inner : (m : Outcome (Tun H)) (t : Tun H) → (m >>= λ u. ok (some u)) ≡ ok (some t) → m ≡ ok t
  inner (ok u) t h = cc h
  inner (err e) t h = cc h
  inner hang t h = cc h

  by_type :
      (a b c : Bool) (m n : Outcome (Tun H)) (e : String) (t : Tun H)
      → ((u : Tun H) → m ≡ ok u → IsNew H.tunnels u)
      → ((u : Tun H) → n ≡ ok u → IsNew H.tunnels u)
      → (if a
          then ok none
          else if b
          then (m >>= λ u. ok (some u))
          else if c
          then (n >>= λ u. ok (some u))
          else err e)
        ≡ ok (some t)
      → IsNew H.tunnels t
  by_type true b c m n e t f g h = cc h
  by_type false true c m n e t f g h = f t (inner m t h)
  by_type false false true m n e t f g h = g t (inner n t h)
  by_type false false false m n e t f g h = cc h

  pub build_tunnel-IsNew :
      (passphrase : String) (env : Environment) (t : Tun H)
      → build_tunnel H passphrase env ≡ ok (some t)
      → IsNew H.tunnels t
  unfolding build_tunnel
  build_tunnel-IsNew passphrase env t h =
      by_type (env.tunnel_type == tunnel_none) (env.tunnel_type == tunnel_ssh)
        (env.tunnel_type == tunnel_wireguard) (build_ssh H passphrase env.ssh)
        (build_wireguard H passphrase env.wireguard) _ t (build_ssh-IsNew passphrase env.ssh)
        (build_wireguard-IsNew passphrase env.wireguard) h
