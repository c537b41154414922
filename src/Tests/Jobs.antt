-- ===== src/Tests/Jobs.antt =====
-- A job of runner.go over three names: an environment behind a tunnel, a disabled one, and a name
-- that no environment has.
use mathlib.Core.Path.{subst}
use text.Mathlib.Text.{starts_with}
use text.Mathlib.TextLemmas.{append_assoc}
use text.Mathlib.TextPositions.{slice-append_left}
use tcl_script_runner.Outcome.{ok}
use tcl_script_runner.Prelude.{
  sym, false, ◌<>◌, String, false, none, some, List, [], ◌∷◌, ◌++◌, ◌≡◌, refl, map,
}
use tcl_script_runner.Prelude.Int.{pos}
use tcl_script_runner.Prelude.Base64.{encode, decode}
use tcl_script_runner.Json.{int, str, obj, Fields, end, field}
use tcl_script_runner.Config.{Config, Environment, new_environment, default_config, tunnel_ssh}
use tcl_script_runner.Becs.Recorder.{global_log}
use tcl_script_runner.Becs.Client.{Reply, reply, json}
use tcl_script_runner.Becs.Batch.Returns.{poll_returns}
use tcl_script_runner.Becs.Client.{
  check_url, do_request, decode_result, ◌>>=◌, pure, fail_with, record_entry, next_request, wrapped,
  check, request,
}
use tcl_script_runner.Becs.Types.{
  decode_response, decode_login_result, decode_logout_result, decode_batch_run_result,
}
use tcl_script_runner.Becs.Results.{decode_batch_info_get_result}
use tcl_script_runner.Becs.Sessions.{set_session}
use tcl_script_runner.Becs.Batch.{RunResult, is_terminal}
use tcl_script_runner.Runner.Execute.{fetch_output, report_of}
use tcl_script_runner.Json.Decode.{decode_struct, same_name, decode_string, decode_int}
use tcl_script_runner.Becs.Client.{Session, default_route, new_client}
use tcl_script_runner.Prelude.Text.{quote}
use tcl_script_runner.Prelude.Utf8.{of_bytes, to_bytes}
use tcl_script_runner.Config.Crud.{find_by_name}
use tcl_script_runner.Config.Crypto.{decrypt, new_gcm, decode_blob, open_box}
use tcl_script_runner.Runner.Credentials.{build_tunnel}
use tcl_script_runner.Becs.Sessions.{login, logout}
use tcl_script_runner.Becs.Batch.{batch_run, batch_info_get, poll}
use tcl_script_runner.Becs.Client.{call}
use tcl_script_runner.Runner.Job.{Job, Run, new_job, run_finished}
use tcl_script_runner.Runner.Host.{Host, Sys}
use tcl_script_runner.Runner.Execute.{execute_run}
use tcl_script_runner.Runner.Execute.Runs.{IsTimely}
use tcl_script_runner.Runner.Jobs.{Runner, Answer, completed, rejected, run_job}
use tcl_script_runner.Runner.Execute.Courses.{Course, execute_run-Course}
use tcl_script_runner.Runner.Jobs.Saved.{Kept, run_job-Kept}
use tcl_script_runner.Runner.Files.{job_path, save, load_job}
use tcl_script_runner.Runner.Files.RoundTrip.{load_job-save}
use tcl_script_runner.Os.{IsLawful, replace_file}
use tcl_script_runner.Os.Memory.{memory, memory-IsLawful}
use tcl_script_runner.Runner.Jobs.Order.{selected, Answered, run_job-Answered}
use tcl_script_runner.Tests.World.{host-ReadsBack, network, host, ciphers_set_up, zeros}

-- Sixteen bytes of salt, twelve of the nonce, a password of six bytes and the tag.
abbrev pub secret : String
secret = encode (zeros 28 ++ 115 ∷ 101 ∷ 99 ∷ 114 ∷ 101 ∷ 116 ∷ zeros 16)

abbrev pub north : Environment
north = record new_environment {
  name = "north";
  becs_host = "10.0.0.1";
  username = "admin";
  password = secret;
  tunnel_type = tunnel_ssh;
  ssh = record new_environment.ssh { host = "gate"; user = "ops" };
}

abbrev pub south : Environment
south = record new_environment { name = "south"; enabled = false }

abbrev pub cfg : Config
cfg = record default_config { environments = north ∷ south ∷ [] }

abbrev answer : Fields → Reply
answer result = reply 200 (
    json (
      obj
        (field "jsonrpc" (str "2.0") (field "result" (obj result) (field "id" (int (pos 1)) end)))))

abbrev pub replies : List Reply
replies =
    answer (field "err" (int (pos 0)) (field "sessionid" (str "s1") end))
    ∷ answer (field "err" (int (pos 0)) (field "batchid" (int (pos 7)) end))
    ∷ answer (
        field "err" (int (pos 0)) (
          field "info" (obj (field "state" (str "Finished") (field "lastlog" (str "done") end)))
            end))
    ∷ answer (field "err" (int (pos 0)) end)
    ∷ []

abbrev pub H : Host
H = host (some "context canceled")

abbrev pub start : Sys H
unfolding host network
start = record {
  log = global_log;
  world = (1, replies);
  disk = record { file = λ name. none; faults = [] };
}

abbrev idle : Runner H
idle = record { cfg = cfg; data_dir = "data"; passphrase = "pw"; busy = false }

abbrev statuses : List Run → List (String × String × String × String)
statuses = map (λ r. (r.environment, r.status, r.output, r.err))

abbrev names_asked : List String
names_asked = "north" ∷ "south" ∷ "west" ∷ []

abbrev report : Answer H → List (String × String × String × String)
report (completed job e) = statuses job.runs
report (rejected m) = []
report Answer.unfinished = []

pub timely : IsTimely H 1
unfolding host
timely = record {
  polls = λ batch_id interval s.
      poll_returns H.net (λ i w. ("context canceled", refl)) 0 batch_id interval s;
  ciphers = ciphers_set_up;
}

abbrev result : Answer H × Runner H × Sys H
result = run_job H 1 names_asked "puts 1" [] idle start

ran :
    report result.0
    ≡ ("north", run_finished, "done", "")
      ∷ ("west", "error", "", "environment \"west\" not found in config")
      ∷ []
unfolding run_job execute_run host network find_by_name login logout batch_run batch_info_get poll
    call decrypt new_gcm decode_blob open_box encode decode check_url do_request decode_result ◌>>=◌
    pure fail_with record_entry next_request wrapped check request decode_response
    decode_login_result decode_logout_result decode_batch_run_result decode_batch_info_get_result
    set_session is_terminal fetch_output decode_struct same_name decode_string decode_int new_client
    of_bytes to_bytes new_environment build_tunnel new_job report_of quote
ran = refl

run_job-Answered_example : Answered H 1 "puts 1" [] (selected cfg names_asked) result
run_job-Answered_example = run_job-Answered H 1 "puts 1" [] names_asked idle start refl timely

abbrev brief : Answer H × Runner H × Sys H
brief = run_job H 1 ("south" ∷ []) "puts 1" [] idle start

elsewhere : (name : String) → starts_with ("data" <> name) "tmp:" ≡ false
elsewhere name = rw (slice-append_left "data" name)

pub lasting : (id : String) → H.os.is_temp (job_path H "data" id) ≡ false
unfolding host memory
lasting id =
    subst (λ path. starts_with path "tmp:" ≡ false)
      (sym (append_assoc "data" "/jobs" ("/" <> (id <> ".json"))))
      (elsewhere ("/jobs" <> ("/" <> (id <> ".json"))))

pub lawful : IsLawful H.os
unfolding host
lawful = memory-IsLawful

run_job-Kept_example : Kept H "data" brief
run_job-Kept_example =
    run_job-Kept H "data" lawful (host-ReadsBack (some "context canceled")) lasting 1 ("south" ∷ [])
      "puts 1" [] idle start refl

abbrev pub brief_job : Job
brief_job = record (new_job 1 "job-1" "puts 1" []) { finished_at = 2 }

pub saved : (save H brief_job "data" start.disk).0 ≡ ok tt
unfolding host memory save new_job replace_file
saved = refl

load_job-save_example :
    load_job H "data" brief_job.id (save H brief_job "data" start.disk).1 ≡ ok brief_job
load_job-save_example =
    load_job-save H lawful brief_job "data" (lasting brief_job.id)
      (host-ReadsBack (some "context canceled")) start.disk saved

execute_run-Course_example :
    (run : Run) × ((execute_run H 1 cfg "pw" "puts 1" [] north start).0 ≡ some run)
    × Course H "pw" north
        (H.net.now start.world).1
        run
        (execute_run H 1 cfg "pw" "puts 1" [] north start).1.world
execute_run-Course_example = execute_run-Course H 1 cfg "pw" "puts 1" [] north start timely

-- The batch has been stopped.
abbrev at_poll : Session H.net
unfolding host network
at_poll = record {
  client = new_client "http://10.0.0.1:4499/" default_route;
  log = global_log;
  world = (
    1,
    answer (
          field "err" (int (pos 0)) (
            field "info" (obj (field "state" (str "Stopped") (field "lastlog" (str "halted") end)))
              end))
        ∷ [],
  );
}

abbrev stopped : RunResult
stopped = record { state = "Stopped"; last_log = "halted"; batch_variables = [] }

abbrev at_stop : Session H.net
at_stop = (poll H.net 1 (pos 7) (pos 5) at_poll).1

polled : poll H.net 1 (pos 7) (pos 5) at_poll ≡ (ok stopped, at_stop)
unfolding host network poll batch_info_get call check_url do_request decode_result ◌>>=◌ pure
    fail_with record_entry next_request wrapped check request decode_response
    decode_batch_info_get_result is_terminal decode_struct same_name decode_string decode_int
    new_client
polled = refl
