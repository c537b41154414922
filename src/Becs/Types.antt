-- ===== src/Becs/Types.antt =====
-- internal/becs/types.go: the messages of the JSON-RPC API, as they are written and read.
use tcl_script_runner.Prelude.{String, Option, none, some, if◌then◌else◌}
use tcl_script_runner.Prelude.Int.{ℤ, pos}
use tcl_script_runner.Json.{Json, null}
use tcl_script_runner.Json.Decode.{same_name, decode_int, decode_string, decode_struct, ◌>>=◌}

pub record NameValue : Type 0 where
  pub name : String
  pub value : String

pub record RpcError : Type 0 where
  pub code : ℤ
  pub message : String

-- `result` is the raw message: `none` if the response has none.
pub record Response : Type 0 where
  pub jsonrpc : String
  pub result : Option Json
  pub error : Option RpcError
  pub id : ℤ

-- The setters of the structs: a member goes to the field whose name it has, and one that has no
-- field's name is passed over.
set_name_value : String → Json → NameValue → Option NameValue
set_name_value name v r =
    if same_name "name" name
    then (decode_string r.name v >>= λ x. some (record r { name = x }))
    else if same_name "value" name
    then (decode_string r.value v >>= λ x. some (record r { value = x }))
    else some r

unfoldable pub decode_name_value : Json → Option NameValue
unfolding set_name_value
decode_name_value = decode_struct set_name_value (record { name = ""; value = "" })

set_rpc_error : String → Json → RpcError → Option RpcError
set_rpc_error name v r =
    if same_name "code" name
    then (decode_int r.code v >>= λ x. some (record r { code = x }))
    else if same_name "message" name
    then (decode_string r.message v >>= λ x. some (record r { message = x }))
    else some r

abbrev or_zero : Option RpcError → RpcError
or_zero none = record { code = pos 0; message = "" }
or_zero (some e) = e

-- `*rpcError`: a null resets the pointer.
decode_rpc_error : Option RpcError → Json → Option (Option RpcError)
unfolding set_rpc_error
decode_rpc_error old null = some none
decode_rpc_error old v = decode_struct set_rpc_error (or_zero old) v >>= λ e. some (some e)

set_response : String → Json → Response → Option Response
unfolding decode_rpc_error
set_response name v r =
    if same_name "jsonrpc" name
    then (decode_string r.jsonrpc v >>= λ x. some (record r { jsonrpc = x }))
    else if same_name "result" name
    then some (record r { result = some v })
    else if same_name "error" name
    then (decode_rpc_error r.error v >>= λ x. some (record r { error = x }))
    else if same_name "id" name
    then (decode_int r.id v >>= λ x. some (record r { id = x }))
    else some r

unfoldable pub decode_response : Json → Option Response
unfolding set_response
decode_response =
    decode_struct set_response (record { jsonrpc = ""; result = none; error = none; id = pos 0 })

-- The three texts and numbers that most results begin with.
pub record LoginResult : Type 0 where
  pub err : ℤ
  pub err_txt : String
  pub session_id : String

set_login_result : String → Json → LoginResult → Option LoginResult
set_login_result name v r =
    if same_name "err" name
    then (decode_int r.err v >>= λ x. some (record r { err = x }))
    else if same_name "errtxt" name
    then (decode_string r.err_txt v >>= λ x. some (record r { err_txt = x }))
    else if same_name "sessionid" name
    then (decode_string r.session_id v >>= λ x. some (record r { session_id = x }))
    else some r

unfoldable pub decode_login_result : Json → Option LoginResult
unfolding set_login_result
decode_login_result =
    decode_struct set_login_result (record { err = pos 0; err_txt = ""; session_id = "" })

pub record LogoutResult : Type 0 where
  pub err : ℤ
  pub err_txt : String

set_logout_result : String → Json → LogoutResult → Option LogoutResult
set_logout_result name v r =
    if same_name "err" name
    then (decode_int r.err v >>= λ x. some (record r { err = x }))
    else if same_name "errtxt" name
    then (decode_string r.err_txt v >>= λ x. some (record r { err_txt = x }))
    else some r

unfoldable pub decode_logout_result : Json → Option LogoutResult
unfolding set_logout_result
decode_logout_result = decode_struct set_logout_result (record { err = pos 0; err_txt = "" })

pub record BatchRunResult : Type 0 where
  pub err : ℤ
  pub err_txt : String
  pub batch_id : ℤ

set_batch_run_result : String → Json → BatchRunResult → Option BatchRunResult
set_batch_run_result name v r =
    if same_name "err" name
    then (decode_int r.err v >>= λ x. some (record r { err = x }))
    else if same_name "errtxt" name
    then (decode_string r.err_txt v >>= λ x. some (record r { err_txt = x }))
    else if same_name "batchid" name
    then (decode_int r.batch_id v >>= λ x. some (record r { batch_id = x }))
    else some r

unfoldable pub decode_batch_run_result : Json → Option BatchRunResult
unfolding set_batch_run_result
decode_batch_run_result =
    decode_struct set_batch_run_result (record { err = pos 0; err_txt = ""; batch_id = pos 0 })

-- `BatchState` is a string, which the server may set to anything.
abbrev pub BatchState : Type 0
BatchState = String

abbrev pub state_running : BatchState
state_running = "Running"

abbrev pub state_finished : BatchState
state_finished = "Finished"

abbrev pub state_stopped : BatchState
state_stopped = "Stopped"

abbrev pub state_paused : BatchState
state_paused = "Paused"
