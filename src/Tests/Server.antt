-- ===== src/Tests/Server.antt =====
-- The client, the polling loop and the recorder against a server whose batch runs once and then ends.
use tcl_script_runner.Prelude.{ℕ, String, none, List, [], ◌∷◌, ◌≡◌, ◌↔◌, ◌≤◌, ◌<◌, length, refl}
use tcl_script_runner.Prelude.Int.{pos}
use tcl_script_runner.Outcome.{ok}
use tcl_script_runner.Json.{int, str, obj, end, field}
use tcl_script_runner.Json.Decode.{decode_struct, same_name, decode_string, decode_int}
use tcl_script_runner.Becs.Types.{decode_login_result, decode_logout_result, decode_response}
use tcl_script_runner.Becs.Results.{decode_batch_info_get_result}
use tcl_script_runner.Becs.Recorder.{Recorder, LogEntry, global_log, clear}
use tcl_script_runner.Becs.Recorder.Window.{record_all, stamped, last, record_all-clear}
use tcl_script_runner.Becs.Client.{
  Net, Session, Reply, reply, json, default_route, new_client, call, check_url, do_request,
  decode_result, ◌>>=◌, pure, fail_with, record_entry, next_request, wrapped, check, request,
}
use tcl_script_runner.Becs.Client.Frame.{next, client-call}
use tcl_script_runner.Becs.Sessions.{login, logout, login_params, logout_params}
use tcl_script_runner.Becs.Sessions.Laws.{Ends, Grants, login-Ends, logout-Ends}
use tcl_script_runner.Becs.Batch.{RunResult, batch_info_get, poll, is_terminal, pause}
use tcl_script_runner.Becs.Batch.Polling.{Ended, Rounds, poll-eq-ok}
use tcl_script_runner.Tests.World.{network}

abbrev N : Net
N = network none

abbrev info : String → Reply
info state = reply 200 (
    json (
      obj (
        field "jsonrpc" (str "2.0") (
          field "result"
            (obj (
              field "err" (int (pos 0)) (
                field "info" (obj (field "state" (str state) (field "lastlog" (str "done") end)))
                  end)))
            (field "id" (int (pos 1)) end)))))

abbrev session : List Reply → Session N
unfolding network
session replies = record {
  client = new_client "http://10.0.0.1:4499/" default_route;
  log = global_log;
  world = (1, replies);
}

abbrev start : Session N
start = session (info "Running" ∷ info "Finished" ∷ [])

abbrev result : RunResult
result = record { state = "Finished"; last_log = "done"; batch_variables = [] }

-- The state that the loop ends in.
abbrev after : Session N
after = (poll N 2 (pos 7) (pos 5) start).1

polled : poll N 2 (pos 7) (pos 5) start ≡ (ok result, after)
unfolding poll batch_info_get call check_url do_request decode_result ◌>>=◌ pure fail_with
    record_entry next_request wrapped check request decode_response decode_batch_info_get_result
    is_terminal decode_struct same_name decode_string decode_int network new_client pause
polled = refl

poll-eq-ok_example : (poll N 2 (pos 7) (pos 5) start ≡ (ok result, after)) ↔ (
    (n : ℕ) × (u : Session N) × (n < 2)
    × Rounds N (pos 7) (pos 5) n start u
    × (batch_info_get N (pos 7) u ≡ (ok result, after))
    × Ended result.state)
poll-eq-ok_example = poll-eq-ok N (pos 7) (pos 5) 2 start after result

client-call_example :
    (call N "sessionLogout" decode_logout_result (logout_params "s1") start).1.client
    ≡ next start.client
client-call_example = client-call N "sessionLogout" decode_logout_result (logout_params "s1") start

-- The server gives a session ID.
abbrev at_login : Session N
at_login = session (
    reply 200 (
      json (
        obj (
          field "jsonrpc" (str "2.0") (
            field "result" (obj (field "err" (int (pos 0)) (field "sessionid" (str "s1") end)))
              (field "id" (int (pos 1)) end)))))
    ∷ [])

login-Ends_example :
    (((login N "admin" "secret" at_login).0 ≡ ok tt) ↔ (
      (id : String) × Grants
        (call N "sessionLogin" decode_login_result (login_params "admin" "secret") at_login).0
        id))
    × Ends
        (next at_login.client)
        (Grants
          (call N "sessionLogin" decode_login_result (login_params "admin" "secret") at_login).0)
        (login N "admin" "secret" at_login)
login-Ends_example = login-Ends N "admin" "secret" at_login

logout-Ends_example : Ends (next start.client) (λ id. id ≡ "") (logout N start)
logout-Ends_example = logout-Ends N start

abbrev entry : String → LogEntry
entry method = record {
  time = 0;
  dir = "→";
  method = method;
  id = 1;
  endpoint = "http://10.0.0.1:4499/";
  body = "{}";
}

abbrev small : Recorder
small = record { entries = entry "old" ∷ []; max = 2 }

abbrev messages : List (ℕ × LogEntry)
messages = (5, entry "sessionLogin") ∷ (6, entry "batchRun") ∷ (7, entry "sessionLogout") ∷ []

record_all-clear_example :
    ((record_all messages (clear small)).entries ≡ last 2 (stamped messages))
    × (length (record_all messages (clear small)).entries ≤ 2)
record_all-clear_example = record_all-clear messages small
