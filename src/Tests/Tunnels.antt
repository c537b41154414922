-- ===== src/Tests/Tunnels.antt =====
-- Tunnels over libraries that only keep a list of the open handles, alone and under a runner.
use tcl_script_runner.Prelude.{
  ℕ, suc, String, ◌==◌, false, none, some, List, [], ◌∷◌, ◌≡◌, refl, arith, if◌then◌else◌,
}
use tcl_script_runner.Prelude.Int.{pos}
use tcl_script_runner.Json.{print}
use tcl_script_runner.Config.{
  Environment, new_environment, default_config, tunnel_ssh, SshTunnelConfig, WireGuardConfig,
}
use tcl_script_runner.Becs.Recorder.{global_log}
use tcl_script_runner.Becs.Client.{Net, Reply, no_reply}
use tcl_script_runner.Becs.Batch.Returns.{poll_returns}
use tcl_script_runner.Tunnel.Attempt.{Attempt, got, refused}
use tcl_script_runner.Tunnel.Resources.{Handle, release}
use tcl_script_runner.Tunnel.Contract.{Releases}
use tcl_script_runner.Tunnel.Ssh.{SshLibrary, Ssh, new_ssh, connect}
use tcl_script_runner.Tunnel.Ssh.Forward.{handle_conn, handle_conn-live}
use tcl_script_runner.Tunnel.Ssh.Tracks as SshTracks
use tcl_script_runner.Tunnel.Ssh.Laws.{Connected, connect-Connected}
use tcl_script_runner.Tunnel.WireGuard
use tcl_script_runner.Tunnel.WireGuard.{
  WireGuardLibrary, WireGuard, new_wireguard, build_ipc, hex_encode, b64_to_hex, psk_line,
  allowed_lines, keepalive_line,
}
use tcl_script_runner.Tunnel.WireGuard.Ipc.{settings, lines-build_ipc}
use tcl_script_runner.Prelude.Base64.{decode}
use tcl_script_runner.Prelude.Text.{hex_byte, trim_space, split_comma}
use tcl_script_runner.Prelude.Text.Lines.{IsLine, lines, is_line-IsLine}
use tcl_script_runner.Tunnel.WireGuard.Laws as WireGuardLaws
use tcl_script_runner.Tunnel.WireGuard.Laws.{Ready, connect-Ready}
use tcl_script_runner.Tunnel.Kinds.{kinds}
use tcl_script_runner.Tunnel.Kinds.Releases.{kinds-Releases}
use tcl_script_runner.Runner.Host.{Host, Sys}
use tcl_script_runner.Runner.Execute.Runs.{IsTimely}
use tcl_script_runner.Runner.Execute.Closing.{Keeps}
use tcl_script_runner.Runner.Jobs.{Runner, run_job}
use tcl_script_runner.Runner.Jobs.Closing.{live-run_job}
use tcl_script_runner.Tests.World.{host, ciphers_set_up}
use tcl_script_runner.Tests.Jobs.{secret, replies}

-- A clock, the replies that are still to come, the open handles, and the next handle.
record Place : Type 0 where
  clock : ℕ
  replies : List Reply
  live : List Handle
  next : ℕ

opened : Place → Attempt Handle × Place
opened w = (got w.next, record w { live = w.next ∷ w.live; next = suc w.next })

-- A handle in the place of another.
swapped : Handle → Place → Handle × Place
swapped h w = (w.next, record w { live = w.next ∷ release h w.live; next = suc w.next })

-- No server listens at the address of a host without a name.
unfoldable ssh : SshLibrary Place
unfolding opened swapped
ssh = record {
  Auth = String;
  password_auth = λ password. password;
  read_file = λ path w. got "a key";
  parse_private_key = λ text. got text;
  parse_private_key_with_passphrase = λ text passphrase. got text;
  dial = λ addr user auth w. if addr == ":22" then (refused "no such host", w) else opened w;
  dial_from = λ from addr w. opened w;
  handshake = λ conn addr user auth w. let (h, v) = swapped conn w in (got h, v);
  listen = λ addr w. opened w;
  close = λ h w. (none, record w { live = release h w.live });
}

unfoldable wireguard : WireGuardLibrary Place
unfolding opened swapped
wireguard = record {
  Addr = String;
  zero_addr = "";
  prefix_addr = λ s. got s;
  parse_addr = λ s. got s;
  without_zone = λ a. a;
  corrupt_input = λ s. "illegal base64 data";
  create_net_tun = λ addrs dns mtu w.
      (got (w.next, w.next), record w { live = w.next ∷ w.live; next = suc w.next });
  new_device = λ tun w. swapped tun w;
  ipc_set = λ dev ipc w. (none, w);
  up = λ dev w. (none, w);
  down = λ dev w. w;
  close = λ dev w. record w { live = release dev w.live };
}

abbrev live_of : Place → List Handle
live_of w = w.live

ssh-Tracks : SshTracks.Tracks ssh live_of
unfolding ssh opened swapped
ssh-Tracks = record {
  dialled = λ addr user auth w e. ground arith;
  not_dialled = λ addr user auth w e. ground arith;
  passed = λ from addr w e. ground arith;
  not_passed = λ from addr w e. cc e;
  shaken = λ conn addr user auth w e. ground arith;
  not_shaken = λ conn addr user auth w e. cc e;
  listening = λ addr w e. ground arith;
  not_listening = λ addr w e. cc e;
  closed = λ h w. refl;
}

wireguard-Tracks : WireGuardLaws.Tracks wireguard live_of
unfolding wireguard opened swapped
wireguard-Tracks = record {
  created = λ addrs dns mtu w e. ground arith;
  not_created = λ addrs dns mtu w e. cc e;
  new_device = λ tun w. refl;
  ipc_set = λ dev ipc w. refl;
  up = λ dev w. refl;
  down = λ dev w. refl;
  closed = λ dev w. refl;
}

abbrev far : SshTunnelConfig
far = record new_environment.ssh {
  host = "inner";
  user = "ops";
  auth_method = "password";
  local_port = pos 4499;
  jump_host = "gate";
}

abbrev peer : WireGuardConfig
peer = record new_environment.wireguard {
  peer_public_key = "AAAA";
  endpoint = "vpn:51820";
  allowed_ips = "10.0.0.0/8";
  address = "10.0.0.2/32";
}

abbrev at_start : Place
at_start = record { clock = 1; replies = replies; live = 7 ∷ []; next = 8 }

ssh-IsIdle : SshTracks.IsIdle (new_ssh far "pw" "")
unfolding new_ssh
ssh-IsIdle = record { client = refl; jump = refl; listener = refl }

wireguard-IsIdle : WireGuardLaws.IsIdle (new_wireguard peer "AAAA" "")
unfolding new_wireguard
wireguard-IsIdle = record { dev = refl; tnet = refl }

connect-Connected_example :
    Connected ssh live_of ssh-Tracks (live_of at_start) (connect ssh (new_ssh far "pw" "") at_start)
connect-Connected_example =
    connect-Connected ssh live_of ssh-Tracks (new_ssh far "pw" "") ssh-IsIdle at_start

connect-Ready_example :
    Ready wireguard live_of wireguard-Tracks
      (live_of at_start)
      (WireGuard.connect wireguard (new_wireguard peer "AAAA" "") at_start)
connect-Ready_example =
    connect-Ready wireguard live_of wireguard-Tracks (new_wireguard peer "AAAA" "") wireguard-IsIdle
      at_start

kinds-Releases_example : Releases (kinds ssh wireguard) live_of
kinds-Releases_example = kinds-Releases ssh wireguard live_of ssh-Tracks wireguard-Tracks

reply_of : Place → Reply × Place
reply_of w = elim w.replies as (λ _. Reply × Place) [
  | [] ↦ (no_reply "connection refused", w)
  | r ∷ rs ↦ (r, record w { replies = rs })
]

reply_live : (w : Place) → live_of (reply_of w).1 ≡ live_of w
unfolding reply_of
reply_live w = ground arith

unfoldable network : Net
unfolding reply_of
network = record {
  World = Place;
  now = λ w. (w.clock, record w { clock = suc w.clock });
  bad_url = λ endpoint. none;
  post = λ route endpoint body w. reply_of w;
  wait = λ interval w. (some "context canceled", w);
  raw = print;
  json_error = λ j. "unexpected JSON";
}

unfoldable keeper : Host
unfolding network
keeper = record {
  net = network;
  tunnels = kinds ssh wireguard;
  os = (host none).os;
  ciphers = (host none).ciphers;
  format_id = (host none).format_id;
  marshal_job = (host none).marshal_job;
  unmarshal_job = (host none).unmarshal_job;
}

live_in : keeper.net.World → List Handle
unfolding keeper network
live_in w = live_of w

keeps : Keeps keeper.net live_in
unfolding live_in keeper network reply_of
keeps = record {
  now = λ w. refl;
  post = λ route endpoint body w. reply_live w;
  wait = λ interval w. refl;
}

timely : IsTimely keeper 1
unfolding keeper network host
timely = record {
  polls = λ batch_id interval s.
      poll_returns keeper.net (λ i w. ("context canceled", refl)) 0 batch_id interval s;
  ciphers = ciphers_set_up;
}

keeper-Releases : Releases keeper.tunnels live_in
unfolding live_in keeper
keeper-Releases = kinds-Releases ssh wireguard live_of ssh-Tracks wireguard-Tracks

abbrev north : Environment
north = record new_environment {
  name = "north";
  becs_host = "10.0.0.1";
  username = "admin";
  password = secret;
  tunnel_type = tunnel_ssh;
  ssh = far;
}

abbrev idle : Runner keeper
idle = record {
  cfg = record default_config { environments = north ∷ [] };
  data_dir = "data";
  passphrase = "pw";
  busy = false;
}

abbrev start : Sys keeper
unfolding keeper network host
start = record {
  log = global_log;
  world = at_start;
  disk = record { file = λ name. none; faults = [] };
}

live-run_job_example :
    live_in (run_job keeper 1 ("north" ∷ []) "puts 1" [] idle start).2.world ≡ live_in start.world
live-run_job_example =
    live-run_job keeper live_in keeps keeper-Releases 1 timely ("north" ∷ []) "puts 1" [] idle start

abbrev told : String
told = "private_key=000000\npublic_key=000000\nendpoint=vpn:51820\nallowed_ip=10.0.0.0/8\n"

built : build_ipc wireguard (new_wireguard peer "AAAA" "") ≡ got told
unfolding wireguard new_environment build_ipc b64_to_hex psk_line allowed_lines keepalive_line
    new_wireguard hex_encode decode hex_byte trim_space split_comma
built = refl

endpoint-IsLine : IsLine (new_wireguard peer "AAAA" "").cfg.endpoint
unfolding new_wireguard
endpoint-IsLine = is_line-IsLine "vpn:51820" refl

allowed-IsLine : IsLine (new_wireguard peer "AAAA" "").cfg.allowed_ips
unfolding new_wireguard
allowed-IsLine = is_line-IsLine "10.0.0.0/8" refl

lines-build_ipc_example : lines told ≡ settings (new_wireguard peer "AAAA" "")
lines-build_ipc_example =
    lines-build_ipc wireguard (new_wireguard peer "AAAA" "") endpoint-IsLine allowed-IsLine built

-- The tunnel's client is 7, and a connection of the forward is 8.
abbrev with_client : Place
with_client = record { clock = 1; replies = []; live = 8 ∷ 7 ∷ []; next = 9 }

abbrev serving : Ssh
serving = record (new_ssh far "pw" "") { client = some 7 }

handle_conn-live_example :
    (v : Place) × (handle_conn ssh (λ a b w. w) serving 8 with_client ≡ some v)
    × (live_of v ≡ release 8 (live_of with_client))
handle_conn-live_example =
    handle_conn-live ssh (λ a b w. w) live_of ssh-Tracks (λ a b w. refl) serving 7 8 with_client
      refl
