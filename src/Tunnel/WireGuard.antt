-- ===== src/Tunnel/WireGuard.antt =====
-- internal/tunnel/wireguard.go: the tunnel by a userspace WireGuard device.
pub mod Laws
pub mod Ipc
use tcl_script_runner.Prelude.{
  ℕ, String, ◌<>◌, ◌==◌, Bool, true, false, Option, none, some, List, [], ◌∷◌, if◌then◌else◌,
}
use tcl_script_runner.Prelude.Int.{ℤ, is_positive, show_ℤ}
use tcl_script_runner.Prelude.Text.{quote, trim_space, split_comma, hex_byte}
use tcl_script_runner.Prelude.Utf8.{Bytes}
use tcl_script_runner.Prelude.Base64.{decode}
use tcl_script_runner.Config.{WireGuardConfig}
use tcl_script_runner.Tunnel.Attempt.{Attempt, got, refused, blame, ◌>>=◌}
use tcl_script_runner.Tunnel.Resources.{Handle}

-- wireguard-go, and `net/netip` with its addresses. `corrupt_input` is the text of base64's error.
pub record WireGuardLibrary (World : Type 0) : Type 1 where
  pub Addr : Type 0
  pub zero_addr : Addr
  -- `ParsePrefix` with `Addr`, `ParseAddr`, and `Addr` of `PrefixFrom`.
  pub prefix_addr : String → Attempt Addr
  pub parse_addr : String → Attempt Addr
  pub without_zone : Addr → Addr
  pub corrupt_input : String → String
  -- The device of the tunnel and its network.
  pub create_net_tun : List Addr → List Addr → ℕ → World → Attempt (Handle × Handle) × World
  pub new_device : Handle → World → Handle × World
  pub ipc_set : Handle → String → World → Option String × World
  pub up : Handle → World → Option String × World
  pub down : Handle → World → World
  pub close : Handle → World → World

pub record WireGuard : Type 0 where
  pub cfg : WireGuardConfig
  pub private_key : String
  pub psk : String
  pub dev : Option Handle
  pub tnet : Option Handle

unfoldable pub new_wireguard : WireGuardConfig → String → String → WireGuard
new_wireguard cfg private_key psk = record {
  cfg = cfg;
  private_key = private_key;
  psk = psk;
  dev = none;
  tnet = none;
}

-- `hex.EncodeToString`
unfoldable pub hex_encode : Bytes → String
hex_encode [] = ""
hex_encode (b ∷ bs) = hex_byte b <> hex_encode bs

unfoldable pub allowed_lines : List String → String
allowed_lines [] = ""
allowed_lines (cidr ∷ cidrs) = "allowed_ip=" <> trim_space cidr <> "\n" <> allowed_lines cidrs

unfoldable pub keepalive_line : WireGuard → String
keepalive_line t =
    if is_positive t.cfg.persistent_keepalive
    then "persistent_keepalive_interval=" <> show_ℤ t.cfg.persistent_keepalive <> "\n"
    else ""

module _ {World : Type 0} (L : WireGuardLibrary World) where
  -- What a method of the tunnel gives: its error, the tunnel and the world.
  abbrev pub Result : Type 0
  Result = Option String × WireGuard × World

  unfoldable pub b64_to_hex : String → Attempt String
  b64_to_hex b64 = elim (decode b64) [
    | none ↦ refused ("base64 decode: " <> L.corrupt_input b64)
    | some raw ↦ got (hex_encode raw)
  ]

  parse_all : List String → Attempt (List L.Addr)
  parse_all [] = got []
  parse_all (s ∷ ss) = do
    a ← blame ("invalid address " <> quote s <> ": ") (L.parse_addr (trim_space s))
    rest ← parse_all ss
    got (a ∷ rest)

  or_zero : Attempt L.Addr → L.Addr
  or_zero (got a) = a
  or_zero (refused e) = L.zero_addr

  unfoldable pub parse_dns : WireGuard → Attempt (List L.Addr)
  unfolding parse_all or_zero
  parse_dns t =
      if t.cfg.dns == ""
      then got (or_zero (L.parse_addr "1.1.1.1") ∷ [])
      else parse_all (split_comma t.cfg.dns)

  unfoldable pub psk_line : WireGuard → Attempt String
  psk_line t = if t.psk == "" then got "" else (do
    psk_hex ← blame "preshared key: " (b64_to_hex t.psk)
    got ("preshared_key=" <> psk_hex <> "\n"))

  unfoldable pub build_ipc : WireGuard → Attempt String
  build_ipc t = do
    priv_hex ← blame "private key: " (b64_to_hex t.private_key)
    pub_hex ← blame "peer public key: " (b64_to_hex t.cfg.peer_public_key)
    psk ← psk_line t
    got (
        "private_key="
        <> priv_hex
        <> "\n"
        <> ("public_key="
            <> pub_hex
            <> "\n"
            <> ("endpoint="
                <> t.cfg.endpoint
                <> "\n"
                <> (allowed_lines (split_comma t.cfg.allowed_ips) <> (psk <> keepalive_line t)))))

  -- `dev.Close()` and the return of the error.
  fail_device : String → Handle → WireGuard → World → Result
  fail_device message dev t w = (some message, t, L.close dev w)

  brought_up : WireGuard → Handle → Handle → Option String × World → Result
  unfolding fail_device
  brought_up t dev net (some e, w) = fail_device ("wireguard: bring up: " <> e) dev t w
  brought_up t dev net (none, w) = (none, record t { dev = some dev; tnet = some net }, w)

  configured : WireGuard → Handle → Handle → Option String × World → Result
  unfolding fail_device brought_up
  configured t dev net (some e, w) = fail_device ("wireguard: ipc set: " <> e) dev t w
  configured t dev net (none, w) = brought_up t dev net (L.up dev w)

  with_ipc : WireGuard → Handle → Handle → Attempt String → World → Result
  unfolding fail_device configured
  with_ipc t dev net (refused e) w = fail_device ("wireguard: build ipc: " <> e) dev t w
  with_ipc t dev net (got ipc) w = configured t dev net (L.ipc_set dev ipc w)

  created : WireGuard → Attempt (Handle × Handle) × World → Result
  unfolding with_ipc
  created t (refused e, w) = (some ("wireguard: create tun: " <> e), t, w)
  created t (got (tun, net), w) =
      let (dev, w') = L.new_device tun w in with_ipc t dev net (build_ipc t) w'

  named : WireGuard → L.Addr → Attempt (List L.Addr) → World → Result
  unfolding created
  named t local_addr (refused e) w = (some ("wireguard: DNS: " <> e), t, w)
  named t local_addr (got dns) w = created t (L.create_net_tun (local_addr ∷ []) dns 1420 w)

  -- A prefix, or else a bare address; the error is the prefix's.
  pub local_addr : String → Attempt L.Addr
  local_addr address = elim (L.prefix_addr address) [
    | got a ↦ got a
    | refused e ↦ elim (L.parse_addr address) [
      | got a ↦ got (L.without_zone a)
      | refused e2 ↦ refused ("wireguard: local address " <> quote address <> ": " <> e)
    ]
  ]

  addressed : WireGuard → Attempt L.Addr → World → Result
  unfolding named
  addressed t (refused e) w = (some e, t, w)
  addressed t (got a) w = named t a (parse_dns t) w

  unfoldable pub connect : WireGuard → World → Result
  unfolding addressed
  connect t w = addressed t (local_addr t.cfg.address) w

  closed : WireGuard → Option Handle → World → Result
  closed t none w = (none, t, w)
  closed t (some dev) w = (none, record t { dev = none; tnet = none }, L.close dev (L.down dev w))

  unfoldable pub disconnect : WireGuard → World → Result
  unfolding closed
  disconnect t w = closed t t.dev w

-- `Dialer` gives nil while there is no network.
unfoldable pub dialer : WireGuard → Bool
dialer t = elim t.tnet [ none ↦ false | some net ↦ true ]
