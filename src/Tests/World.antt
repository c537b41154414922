-- ===== src/Tests/World.antt =====
-- A small world: a clock, a server that replies from a list, a file system in memory, ciphers that
-- only add a tag, and a YAML that can write the numbers of a configuration without environments.
use tcl_script_runner.Prelude.{
  ◌&&◌, eq_iff, ℕ, zero, suc, ◌+◌, ◌-◌, String, ◌<>◌, ◌==◌, Bool, true, false, Option, none, some,
  List, [], ◌∷◌, ◌++◌, ◌≡◌, ◌≢◌, refl, ap, arith, length, take, length-append, take-append,
  le→ltb_false, eqb, ltb, if◌then◌else◌,
}
use tcl_script_runner.Prelude.Int.{ℤ, pos, negsuc}
use tcl_script_runner.Prelude.Text.{show_ℕ}
use tcl_script_runner.Prelude.Utf8.{Bytes, AreBytes, AreBytes-append}
use tcl_script_runner.Outcome.{Outcome, ok, err, hang}
use tcl_script_runner.Json.{print}
use tcl_script_runner.Os.Memory.{memory}
use tcl_script_runner.Config.{Config, Environment}
use tcl_script_runner.Config.Files.{Yaml}
use tcl_script_runner.Config.Files.RoundTrip.{IsFaithful}
use tcl_script_runner.Config.Crypto.{Primitives, IsLawful, SetsUp}
use tcl_script_runner.Becs.Client.{Net, Reply, no_reply}
use tcl_script_runner.Tunnel.{Tunnels}
use tcl_script_runner.Runner.Job.{Run, Job}
use tcl_script_runner.Runner.Host.{Host}
use tcl_script_runner.Runner.Files.RoundTrip.{ReadsBack}
use tcl_script_runner.Becs.Types.{NameValue}

-- The clock and the replies that are still to come.
abbrev pub World : Type 0
World = ℕ × List Reply

-- A network on which the context has the given error.
unfoldable pub network : Option String → Net
network context = record {
  World = World;
  now = λ w. (w.0, (suc w.0, w.1));
  bad_url = λ endpoint. none;
  post = λ route endpoint body w. elim w.1 as (λ _. Reply × World) [
    | [] ↦ (no_reply "connection refused", w)
    | r ∷ rs ↦ (r, (w.0, rs))
  ];
  wait = λ interval w. (context, w);
  raw = print;
  json_error = λ j. "unexpected JSON";
}

abbrev pub zeros : ℕ → Bytes
zeros zero = []
zeros (suc n) = 0 ∷ zeros n

length-zeros : (n : ℕ) → length (zeros n) ≡ n
length-zeros zero = refl
length-zeros (suc n) = ap suc (length-zeros n)

pub zeros-AreBytes : (n : ℕ) → AreBytes (zeros n)
zeros-AreBytes zero = tt
zeros-AreBytes (suc n) = (omega arith, zeros-AreBytes n)

new_cipher : Bytes → Outcome Bytes
new_cipher key = if eqb (length key) 32 then ok key else err "invalid key size"

open_box : Bytes → Option Bytes
open_box box = if ltb (length box) 16 then none else some (take (length box - 16) box)

unfoldable pub ciphers : Primitives
unfolding new_cipher open_box
ciphers = record {
  Block = Bytes;
  Aead = Bytes;
  pbkdf2_key = λ password salt iter n. zeros n;
  new_cipher = new_cipher;
  gcm = λ block. ok block;
  seal = λ aead nonce plaintext. plaintext ++ zeros 16;
  open_ = λ aead nonce box. open_box box;
  corrupt_input = λ encoded. "illegal base64 data";
}

sealed : (plaintext : Bytes) → length (plaintext ++ zeros 16) ≡ length plaintext + 16
sealed plaintext = length-append plaintext (zeros 16)

opens : (plaintext : Bytes) → open_box (plaintext ++ zeros 16) ≡ some plaintext
unfolding open_box
opens plaintext =
    let n = sealed plaintext in
    let e : length (plaintext ++ zeros 16) - 16 ≡ length plaintext = omega (arith, n) in
    rw (
      le→ltb_false (length (plaintext ++ zeros 16)) 16 (omega (arith, n)),
      e,
      take-append plaintext (zeros 16),
    )

pub ciphers-IsLawful : IsLawful ciphers
unfolding ciphers new_cipher
ciphers-IsLawful = record {
  length-pbkdf2_key = λ password salt iter n. length-zeros n;
  new_cipher-total = λ key e. (key, rw e);
  gcm-total = λ block. (block, refl);
  open-seal = λ aead nonce plaintext e. opens plaintext;
  length-seal = λ aead nonce plaintext. sealed plaintext;
  seal-AreBytes =
      λ aead nonce plaintext h. AreBytes-append plaintext (zeros 16) h (zeros-AreBytes 16);
}

key_taken : (key : Bytes) → new_cipher key ≢ hang
unfolding new_cipher
key_taken key h = ground arith

pub ciphers_set_up : SetsUp ciphers
unfolding ciphers
ciphers_set_up = record { keys = key_taken; blocks = λ block h. cc h }

marks : ℕ → String
marks zero = ""
marks (suc n) = String.◌∷◌ "x" (marks n)

count : String → ℕ
count String.[] = 0
count (String.◌∷◌ c s) = suc (count s)

count-marks : (n : ℕ) → count (marks n) ≡ n
unfolding marks count
count-marks zero = refl
count-marks (suc n) = ap suc (count-marks n)

abbrev with_numbers : ℤ → ℤ → List Environment → Config
with_numbers interval timeout envs = record {
  poll_interval_seconds = interval;
  default_timeout_seconds = timeout;
  environments = envs;
  path = "";
}

text_of : List Environment → ℤ → ℤ → Outcome String
text_of [] (pos n) (pos zero) = ok (marks n)
text_of _ _ _ = err "not supported"

unfoldable pub yaml : Yaml
unfolding text_of count marks
yaml = record {
  marshal = λ c. text_of c.environments c.poll_interval_seconds c.default_timeout_seconds;
  unmarshal = λ text. ok (with_numbers (pos (count text)) (pos 0) []);
}

ok_text : {a b : String} → ◌≡◌ {A = Outcome String} (ok a) (ok b) → a ≡ b
ok_text h = cc h

reads_back :
    (envs : List Environment) (interval timeout : ℤ) {text : String}
    → text_of envs interval timeout ≡ ok text
    → ◌≡◌ {A = Outcome Config}
        (ok (with_numbers (pos (count text)) (pos 0) []))
        (ok (with_numbers interval timeout envs))
unfolding text_of
reads_back [] (pos n) (pos zero) h = rw (← ok_text h, count-marks n)
reads_back [] (pos n) (pos (suc m)) h = cc h
reads_back [] (pos n) (negsuc m) h = cc h
reads_back [] (negsuc n) timeout h = cc h
reads_back (env ∷ envs) interval timeout h = cc h

pub yaml-IsFaithful : IsFaithful yaml
unfolding yaml
yaml-IsFaithful = record {
  unmarshal-marshal =
      λ c {text} e. reads_back c.environments c.poll_interval_seconds c.default_timeout_seconds e;
}

-- Tunnels that connect unless their user is empty.
unfoldable pub tunnels : Tunnels World
tunnels = record {
  Tunnel = Bool;
  new_ssh = λ ssh password key. ssh.user == "";
  new_wireguard = λ wg key psk. false;
  connect = λ t w. (if t then some "no user" else none, t, w);
  disconnect = λ t w. (none, t, w);
  dialer = λ t. true;
}

-- JSON that can write one job, which has no runs.
abbrev known_job : ℕ → ℕ → String → String → List NameValue → List Run → Job
known_job started finished id script variables runs = record {
  id = id;
  started_at = started;
  finished_at = finished;
  script = script;
  variables = variables;
  runs = runs;
}

is_known : ℕ → ℕ → String → String → Bool
is_known started finished id script =
    eqb started 1 && eqb finished 2 && id == "job-1" && script == "puts 1"

job_text : ℕ → ℕ → String → String → List NameValue → List Run → Outcome String
unfolding is_known
job_text started finished id script [] [] =
    if is_known started finished id script then ok "the job" else err "not supported"
job_text _ _ _ _ _ _ = err "not supported"

is_known_sound :
    (started finished : ℕ) (id script : String)
    → is_known started finished id script ≡ true
    → (started ≡ 1) × (finished ≡ 2) × (id ≡ "job-1") × (script ≡ "puts 1")
unfolding is_known
is_known_sound started finished id script h =
    ground (arith, eq_iff id "job-1", eq_iff script "puts 1")

by_known :
    (b : Bool) {started finished : ℕ} {id script : String}
    → (b ≡ true → (started ≡ 1) × (finished ≡ 2) × (id ≡ "job-1") × (script ≡ "puts 1"))
    → {text : String}
    → ◌≡◌ {A = Outcome String} (if b then ok "the job" else err "not supported") (ok text)
    → ◌≡◌ {A = Outcome Job}
        (ok (known_job 1 2 "job-1" "puts 1" [] []))
        (ok (known_job started finished id script [] []))
by_known true k h = let (a, b, c, d) = k refl in rw (a, b, c, d)
by_known false k h = cc h

job_reads_back :
    (started finished : ℕ) (id script : String) (variables : List NameValue) (runs : List Run)
    {text : String}
    → job_text started finished id script variables runs ≡ ok text
    → ◌≡◌ {A = Outcome Job}
        (ok (known_job 1 2 "job-1" "puts 1" [] []))
        (ok (known_job started finished id script variables runs))
unfolding job_text
job_reads_back started finished id script [] [] h =
    by_known (is_known started finished id script) (is_known_sound started finished id script) h
job_reads_back started finished id script (v ∷ vs) [] h = cc h
job_reads_back started finished id script [] (r ∷ rs) h = cc h
job_reads_back started finished id script (v ∷ vs) (r ∷ rs) h = cc h

unfoldable pub host : Option String → Host
unfolding network ciphers tunnels memory job_text is_known
host context = record {
  net = network context;
  tunnels = tunnels;
  os = memory;
  ciphers = ciphers;
  format_id = λ now. "job-" <> show_ℕ now;
  marshal_job =
      λ job. job_text job.started_at job.finished_at job.id job.script job.variables job.runs;
  unmarshal_job = λ text. ok (known_job 1 2 "job-1" "puts 1" [] []);
}

pub host-ReadsBack : (context : Option String) → ReadsBack (host context)
unfolding host
host-ReadsBack context = record {
  unmarshal-marshal =
      λ j {text} e. job_reads_back j.started_at j.finished_at j.id j.script j.variables j.runs e;
}

text_of_returns :
    (envs : List Environment) (interval timeout : ℤ) → text_of envs interval timeout ≢ hang
unfolding text_of
text_of_returns [] (pos n) (pos zero) h = cc h
text_of_returns [] (pos n) (pos (suc m)) h = cc h
text_of_returns [] (pos n) (negsuc m) h = cc h
text_of_returns [] (negsuc n) timeout h = cc h
text_of_returns (env ∷ envs) interval timeout h = cc h

pub yaml_returns : (c : Config) → yaml.marshal c ≢ hang
unfolding yaml
yaml_returns c = text_of_returns c.environments c.poll_interval_seconds c.default_timeout_seconds

if_ok : (b : Bool) (text e : String) → ◌≢◌ {A = Outcome String} (if b then ok text else err e) hang
if_ok true text e h = cc h
if_ok false text e h = cc h

job_text_returns :
    (started finished : ℕ) (id script : String) (variables : List NameValue) (runs : List Run)
    → job_text started finished id script variables runs ≢ hang
unfolding job_text
job_text_returns started finished id script [] [] h =
    if_ok (is_known started finished id script) _ _ h
job_text_returns started finished id script (v ∷ vs) [] h = cc h
job_text_returns started finished id script [] (r ∷ rs) h = cc h
job_text_returns started finished id script (v ∷ vs) (r ∷ rs) h = cc h

pub host_marshals : (context : Option String) (j : Job) → (host context).marshal_job j ≢ hang
unfolding host
host_marshals context j =
    job_text_returns j.started_at j.finished_at j.id j.script j.variables j.runs

pub host_unmarshals :
    (context : Option String) (text : String) → (host context).unmarshal_job text ≢ hang
unfolding host
host_unmarshals context text h = cc h
