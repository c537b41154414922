-- ===== src/Tunnel/Ssh.antt =====
-- internal/tunnel/ssh.go: the tunnel by an SSH port-forward.
pub mod Tracks
pub mod Laws
pub mod Forward
use tcl_script_runner.Prelude.{
  ℕ, String, ◌<>◌, ◌==◌, Bool, true, false, Option, none, some, List, if◌then◌else◌,
}
use tcl_script_runner.Prelude.Int.{ℤ, pos, is_zero, show_ℤ}
use tcl_script_runner.Prelude.Text.{quote}
use tcl_script_runner.Tunnel.Attempt.{Attempt, got, refused, blame, ◌>>=◌}
use tcl_script_runner.Config.{SshTunnelConfig}
use tcl_script_runner.Tunnel.Resources.{Handle}

-- golang.org/x/crypto/ssh and the calls of `net` and `os` that the tunnel makes. `Auth` is what the
-- list of authentication methods holds. `handshake` is `NewClientConn` with `NewClient`. A
-- `net.Conn` within `forward` is served by its own goroutine.
pub record SshLibrary (World : Type 0) : Type 1 where
  pub Auth : Type 0
  pub password_auth : String → Auth
  pub read_file : String → World → Attempt String
  pub parse_private_key : String → Attempt Auth
  pub parse_private_key_with_passphrase : String → String → Attempt Auth
  pub dial : String → String → Auth → World → Attempt Handle × World
  pub dial_from : Handle → String → World → Attempt Handle × World
  pub handshake : Handle → String → String → Auth → World → Attempt Handle × World
  pub listen : String → World → Attempt Handle × World
  pub close : Handle → World → Option String × World

pub record Ssh : Type 0 where
  pub cfg : SshTunnelConfig
  pub password : String
  pub passphrase : String
  pub client : Option Handle
  pub jump : Option Handle
  pub listener : Option Handle

unfoldable pub new_ssh : SshTunnelConfig → String → String → Ssh
new_ssh cfg password passphrase = record {
  cfg = cfg;
  password = password;
  passphrase = passphrase;
  client = none;
  jump = none;
  listener = none;
}

-- `errors.Join` of two errors.
abbrev pub join_errors : Option String → Option String → Option String
join_errors none f = f
join_errors (some e) none = some e
join_errors (some e) (some f) = some (e <> "\n" <> f)

-- `fmt.Sprintf("%s:%d", host, port)`
abbrev pub address : String → ℤ → String
address host port = host <> ":" <> show_ℤ port

unfoldable pub host_addr : Ssh → String
host_addr t = address t.cfg.host t.cfg.port

unfoldable pub local_addr : Ssh → String
local_addr t = "127.0.0.1:" <> show_ℤ t.cfg.local_port

unfoldable pub jump_user : Ssh → String
jump_user t = if t.cfg.jump_user == "" then t.cfg.user else t.cfg.jump_user

unfoldable pub jump_addr : Ssh → String
jump_addr t = address t.cfg.jump_host (if is_zero t.cfg.jump_port then pos 22 else t.cfg.jump_port)

module _ {World : Type 0} (L : SshLibrary World) where
  -- What a method of the tunnel gives: its error, the tunnel and the world.
  abbrev pub Result : Type 0
  Result = Option String × Ssh × World

  signer : Ssh → String → Attempt L.Auth
  signer t text =
      if t.passphrase == ""
      then L.parse_private_key text
      else L.parse_private_key_with_passphrase text t.passphrase

  key_auth : Ssh → World → Attempt L.Auth
  unfolding signer
  key_auth t w = do
    text ← blame ("reading key " <> quote t.cfg.key_path <> ": ") (L.read_file t.cfg.key_path w)
    blame ("parsing key " <> quote t.cfg.key_path <> ": ") (signer t text)

  unfoldable pub auth_methods : Ssh → World → Attempt L.Auth
  unfolding key_auth
  auth_methods t w =
      if t.cfg.auth_method == "password"
      then got (L.password_auth t.password)
      else if t.cfg.auth_method == "key"
      then key_auth t w
      else refused ("unknown auth method " <> quote t.cfg.auth_method)

  -- A client or a listener that is closed if it is set.
  close_held : Option Handle → World → Option String × World
  close_held none w = (none, w)
  close_held (some h) w = L.close h w

  unfoldable pub close_clients : Ssh → World → Result
  unfolding close_held
  close_clients t w =
      let (e1, w1) = close_held t.client w in
      let (e2, w2) = close_held t.jump w1 in
      (join_errors e1 e2, record t { client = none; jump = none }, w2)

  -- `t.closeClients()` and the return of the error; what `closeClients` returns is dropped.
  give_up : String → Ssh → World → Result
  unfolding close_clients
  give_up message t w = let (e, t', w') = close_clients t w in (some message, t', w')

  -- After `net.Listen`; the goroutine of `forward` starts.
  listening : Ssh → Attempt Handle × World → Result
  unfolding give_up local_addr
  listening t (got ln, w) = (none, record t { listener = some ln }, w)
  listening t (refused e, w) = give_up ("ssh tunnel: listen " <> local_addr t <> ": " <> e) t w

  bind : Ssh → World → Result
  unfolding listening local_addr
  bind t w = listening t (L.listen (local_addr t) w)

  -- After the handshake over the connection `conn`.
  shaken : Ssh → Handle → Attempt Handle × World → Result
  unfolding bind give_up host_addr
  shaken t conn (got client, w) = bind (record t { client = some client }) w
  shaken t conn (refused e, w) =
      give_up ("ssh tunnel: handshake " <> host_addr t <> " via jump: " <> e) t (L.close conn w).1

  -- After the dial of the host through the jump host.
  passed : Ssh → L.Auth → Attempt Handle × World → Result
  unfolding shaken give_up host_addr
  passed t auth (got conn, w) = shaken t conn (L.handshake conn (host_addr t) t.cfg.user auth w)
  passed t auth (refused e, w) =
      give_up ("ssh tunnel: dial " <> host_addr t <> " via jump: " <> e) t w

  -- After the dial of the jump host.
  jumped : Ssh → L.Auth → Attempt Handle × World → Result
  unfolding passed jump_addr host_addr
  jumped t auth (got jump, w) =
      passed (record t { jump = some jump }) auth (L.dial_from jump (host_addr t) w)
  jumped t auth (refused e, w) = (some ("ssh tunnel: dial jump " <> jump_addr t <> ": " <> e), t, w)

  -- After the dial of the host itself.
  dialled : Ssh → Attempt Handle × World → Result
  unfolding bind host_addr
  dialled t (got client, w) = bind (record t { client = some client }) w
  dialled t (refused e, w) = (some ("ssh tunnel: dial " <> host_addr t <> ": " <> e), t, w)

  authorised : Ssh → Attempt L.Auth → World → Result
  unfolding jumped dialled jump_addr jump_user host_addr
  authorised t (got auth) w =
      if t.cfg.jump_host == ""
      then dialled t (L.dial (host_addr t) t.cfg.user auth w)
      else jumped t auth (L.dial (jump_addr t) (jump_user t) auth w)
  authorised t (refused e) w = (some ("ssh tunnel: auth: " <> e), t, w)

  unfoldable pub connect : Ssh → World → Result
  unfolding authorised auth_methods
  connect t w = authorised t (auth_methods t w) w

  unfoldable pub disconnect : Ssh → World → Result
  unfolding close_held close_clients
  disconnect t w =
      let (e1, w1) = close_held t.listener w in
      let (e, t', w') = close_clients (record t { listener = none }) w1 in
      (join_errors e1 e, t', w')

-- `Dialer` gives nil: the client dials by the default transport.
unfoldable pub dialer : Ssh → Bool
dialer t = false
