-- ===== src/Becs/Batch.antt =====
-- internal/becs/batch.go: starting a batch, asking for its state, and polling.
pub mod Polling
pub mod Returns
use tcl_script_runner.Prelude.{
  ℕ, zero, suc, String, ◌==◌, ◌||◌, Bool, Option, none, some, List, [], ◌∷◌, if◌then◌else◌,
}
use tcl_script_runner.Prelude.Int.{ℤ, pos, is_zero}
use tcl_script_runner.Json.{Json, int, str, arr, obj, Items, nil, cons, Fields, end, field}
use tcl_script_runner.Outcome.{Outcome, ok, err, hang}
use tcl_script_runner.Becs.Types.{
  NameValue, BatchRunResult, decode_batch_run_result, BatchState, state_finished, state_stopped,
}
use tcl_script_runner.Becs.Results.{
  BatchInfoGetResult, decode_batch_info_get_result, BatchEntry, BatchListResult,
  decode_batch_list_result,
}
use tcl_script_runner.Becs.Client.{
  Net, Session, Act, header, pure, fail_with, call, wrapped, check, ◌>>=◌, ◌>>◌,
}

pub record RunResult : Type 0 where
  pub state : BatchState
  pub last_log : String
  pub batch_variables : List NameValue

name_values : List NameValue → Items
name_values [] = nil
name_values (v ∷ vs) =
    cons (obj (field "name" (str v.name) (field "value" (str v.value) end))) (name_values vs)

-- `omitempty`: no member for an empty list or a zero.
variables_field : List NameValue → Fields → Fields
unfolding name_values
variables_field [] rest = rest
variables_field vs rest = field "variables" (arr (name_values vs)) rest

timeout_field : ℤ → Fields
timeout_field n = if is_zero n then end else field "timeout" (int n) end

unfoldable pub batch_run_params : String → String → List NameValue → ℤ → Json
unfolding variables_field timeout_field
batch_run_params session_id name variables timeout = obj (
    field "_header" (header session_id)
      (field "name" (str name) (variables_field variables (timeout_field timeout))))

unfoldable pub batch_info_get_params : String → ℤ → Json
batch_info_get_params session_id batch_id =
    obj (field "_header" (header session_id) (field "batchid" (int batch_id) end))

unfoldable pub batch_list_params : String → Json
batch_list_params session_id = obj (field "_header" (header session_id) end)

unfoldable pub is_terminal : BatchState → Bool
is_terminal state = state == state_finished || state == state_stopped

module _ (N : Net) where
  unfoldable pub batch_run : String → List NameValue → ℤ → Act N ℤ
  batch_run name variables timeout_secs s =
      (do
        result ← wrapped N "batchRun: " (
            call N "batchRun" decode_batch_run_result
              (batch_run_params s.client.session_id name variables timeout_secs))
        check N "batchRun" result.err result.err_txt (pure N result.batch_id))
        s

  unfoldable pub batch_info_get : ℤ → Act N RunResult
  batch_info_get batch_id s =
      (do
        result ← wrapped N "batchInfoGet: " (
            call N "batchInfoGet" decode_batch_info_get_result
              (batch_info_get_params s.client.session_id batch_id))
        check N "batchInfoGet" result.err result.err_txt (
            pure N (record {
              state = result.info.state;
              last_log = result.info.last_log;
              batch_variables = result.info.batch_variables;
            })))
        s

  unfoldable pub batch_list : Act N (List BatchEntry)
  batch_list s =
      (do
        result ←
            wrapped N "batchList: "
              (call N "batchList" decode_batch_list_result (batch_list_params s.client.session_id))
        check N "batchList" result.err result.err_txt (pure N result.batches))
        s

  -- The wait between two polls; the context's error ends the loop.
  unfoldable pub pause : ℤ → Act N (Unit {0})
  pause interval s =
      let (done, w) = N.wait interval s.world in
      elim done [
        | none ↦ (ok tt, record s { world = w })
        | some e ↦ (err e, record s { world = w })
      ]

  -- `Poll`, for as many rounds as there is fuel. A paused, running or unknown state polls on.
  unfoldable pub poll : ℕ → ℤ → ℤ → Act N RunResult
  poll zero batch_id interval = λ s. (hang, s)
  poll (suc fuel) batch_id interval =
      let again = poll fuel batch_id interval in
      batch_info_get batch_id >>= λ result.
      if is_terminal result.state then pure N result else (pause interval >> again)
