-- ===== src/Web/Environments/Secrets.antt =====
-- internal/web/handlers.go: what `maybeEncrypt` and `encryptTunnelCreds` store.
use tcl_script_runner.Prelude.{
  String, ◌==◌, length, ◌≡◌, ◌≢◌, refl, arith, eq_iff, Bool-cases, inl, inr,
}
use tcl_script_runner.Prelude.Utf8.{Bytes, AreBytes}
use tcl_script_runner.Outcome.{ok}
use tcl_script_runner.Config.{Environment}
use tcl_script_runner.Config.Crypto.{IsLawful, encrypt, decrypt}
use tcl_script_runner.Config.Crypto.Laws.{decrypt-encrypt}
use tcl_script_runner.Runner.Host.{Host}
use tcl_script_runner.Web.Form.{Form, form_value}
use tcl_script_runner.Web.Environments.{
  Credential, ssh_password, ssh_key_passphrase, wg_private_key, wg_preshared_key, Draws,
  maybe_encrypt, encrypt_tunnel_creds,
}

-- The random source works: it gives bytes, as many as asked for.
pub record IsFresh (draws : Draws) : Type 0 where
  pub salt : Credential → Bytes
  pub nonce : Credential → Bytes
  pub drawn : (c : Credential) → draws c ≡ (ok (salt c), ok (nonce c))
  pub length-salt : (c : Credential) → length (salt c) ≡ 16
  pub length-nonce : (c : Credential) → length (nonce c) ≡ 12
  pub salt-AreBytes : (c : Credential) → AreBytes (salt c)
  pub nonce-AreBytes : (c : Credential) → AreBytes (nonce c)

-- An environment with the four set.
abbrev pub with_secrets : Environment → String → String → String → String → Environment
with_secrets env p k w q = record env {
  ssh = record env.ssh { password = p; key_passphrase = k };
  wireguard = record env.wireguard { private_key = w; preshared_key = q };
}

module _ (H : Host) (passphrase : String) where
  -- A field left blank keeps the stored text; else what is stored decrypts to the field.
  pub record Holds (field existing stored : String) : Type 0 where
    pub kept : field ≡ "" → stored ≡ existing
    pub opens : field ≢ "" → decrypt H.ciphers stored passphrase ≡ ok field

  -- The four credentials of the tunnels.
  pub record Secured (form : Form) (existing env : Environment) : Type 0 where
    pub ssh_password : Holds (form_value "ssh_password" form) existing.ssh.password env.ssh.password
    pub key_passphrase :
        Holds
          (form_value "ssh_key_passphrase" form)
          existing.ssh.key_passphrase
          env.ssh.key_passphrase
    pub private_key :
        Holds
          (form_value "wg_private_key" form)
          existing.wireguard.private_key
          env.wireguard.private_key
    pub preshared_key :
        Holds
          (form_value "wg_preshared_key" form)
          existing.wireguard.preshared_key
          env.wireguard.preshared_key

  module _ (L : IsLawful H.ciphers) (draws : Draws) (F : IsFresh draws) where
    pub encrypt-opens :
        (c : Credential) (plain : String)
        → (stored : String) × (encrypt H.ciphers (draws c).0 (draws c).1 plain passphrase
            ≡ ok stored)
          × (decrypt H.ciphers stored passphrase ≡ ok plain)
    encrypt-opens c plain = rw (F.drawn c) (
        decrypt-encrypt H.ciphers L (F.salt c) (F.nonce c) plain passphrase (F.length-salt c)
          (F.length-nonce c) (F.salt-AreBytes c) (F.nonce-AreBytes c))

    pub maybe_encrypt-Holds :
        (c : Credential) (field existing : String)
        → (stored : String) × (maybe_encrypt H passphrase (draws c) field existing ≡ ok stored)
          × Holds field existing stored
    unfolding maybe_encrypt
    maybe_encrypt-Holds c field existing = elim (Bool-cases (field == "")) [
      | inl e ↦ (
        existing,
        rw e refl,
        record { kept = λ q. refl; opens = λ f. absurd (f ((eq_iff field "").0 e)) },
      )
      | inr e ↦
          let (stored, made, opened) = encrypt-opens c field in
          (
            stored,
            rw e made,
            record { kept = λ q. ground (arith, eq_iff field ""); opens = λ f. opened },
          )
    ]

    pub encrypt_tunnel_creds-Secured :
        (form : Form) (env existing : Environment)
        → (p : String) × (k : String) × (w : String) × (q : String) × (encrypt_tunnel_creds H
              passphrase draws form env existing
            ≡ (ok tt, with_secrets env p k w q))
          × Secured form existing (with_secrets env p k w q)
    unfolding encrypt_tunnel_creds
    encrypt_tunnel_creds-Secured form env existing =
        let (p, ep, hp) =
          maybe_encrypt-Holds ssh_password (form_value "ssh_password" form) existing.ssh.password in
        let (k, ek, hk) =
          maybe_encrypt-Holds ssh_key_passphrase (form_value "ssh_key_passphrase" form)
            existing.ssh.key_passphrase in
        let (w, ew, hw) =
          maybe_encrypt-Holds wg_private_key (form_value "wg_private_key" form)
            existing.wireguard.private_key in
        let (q, eq, hq) =
          maybe_encrypt-Holds wg_preshared_key (form_value "wg_preshared_key" form)
            existing.wireguard.preshared_key in
        (
          p,
          k,
          w,
          q,
          rw (ep, ek, ew, eq) refl,
          record { ssh_password = hp; key_passphrase = hk; private_key = hw; preshared_key = hq },
        )
