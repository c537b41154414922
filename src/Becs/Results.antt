-- ===== src/Becs/Results.antt =====
-- internal/becs/types.go: the results of `batchInfoGet`, `batchList` and `fileRead`.
use tcl_script_runner.Prelude.{String, Option, some, List, [], if◌then◌else◌}
use tcl_script_runner.Prelude.Int.{ℤ, pos}
use tcl_script_runner.Prelude.Utf8.{Bytes}
use tcl_script_runner.Json.{Json}
use tcl_script_runner.Json.Decode.{
  same_name, decode_int, decode_string, decode_bytes, decode_struct, decode_list, ◌>>=◌,
}
use tcl_script_runner.Becs.Types.{NameValue, decode_name_value, BatchState}

pub record BatchInfo : Type 0 where
  pub batch_id : ℤ
  pub state : BatchState
  pub last_log : String
  pub variables : List NameValue
  pub batch_variables : List NameValue

set_batch_info : String → Json → BatchInfo → Option BatchInfo
set_batch_info name v r =
    if same_name "batchid" name
    then (decode_int r.batch_id v >>= λ x. some (record r { batch_id = x }))
    else if same_name "state" name
    then (decode_string r.state v >>= λ x. some (record r { state = x }))
    else if same_name "lastlog" name
    then (decode_string r.last_log v >>= λ x. some (record r { last_log = x }))
    else if same_name "variables" name
    then (decode_list decode_name_value r.variables v >>= λ x. some (record r { variables = x }))
    else if same_name "batchvariables" name
    then (decode_list decode_name_value r.batch_variables v >>= λ x.
        some (record r { batch_variables = x }))
    else some r

pub record BatchInfoGetResult : Type 0 where
  pub err : ℤ
  pub err_txt : String
  pub info : BatchInfo

set_batch_info_get_result : String → Json → BatchInfoGetResult → Option BatchInfoGetResult
unfolding set_batch_info
set_batch_info_get_result name v r =
    if same_name "err" name
    then (decode_int r.err v >>= λ x. some (record r { err = x }))
    else if same_name "errtxt" name
    then (decode_string r.err_txt v >>= λ x. some (record r { err_txt = x }))
    else if same_name "info" name
    then (decode_struct set_batch_info r.info v >>= λ x. some (record r { info = x }))
    else some r

abbrev no_info : BatchInfo
no_info = record {
  batch_id = pos 0;
  state = "";
  last_log = "";
  variables = [];
  batch_variables = [];
}

unfoldable pub decode_batch_info_get_result : Json → Option BatchInfoGetResult
unfolding set_batch_info_get_result
decode_batch_info_get_result =
    decode_struct set_batch_info_get_result (record { err = pos 0; err_txt = ""; info = no_info })

-- An entry of a `batchList` response, which `BatchEntry` copies field by field.
pub record BatchEntry : Type 0 where
  pub batch_id : ℤ
  pub name : String
  pub state : BatchState

set_batch_list_entry : String → Json → BatchEntry → Option BatchEntry
set_batch_list_entry name v r =
    if same_name "batchid" name
    then (decode_int r.batch_id v >>= λ x. some (record r { batch_id = x }))
    else if same_name "name" name
    then (decode_string r.name v >>= λ x. some (record r { name = x }))
    else if same_name "state" name
    then (decode_string r.state v >>= λ x. some (record r { state = x }))
    else some r

pub record BatchListResult : Type 0 where
  pub err : ℤ
  pub err_txt : String
  pub batches : List BatchEntry

set_batch_list_result : String → Json → BatchListResult → Option BatchListResult
unfolding set_batch_list_entry
set_batch_list_result name v r =
    if same_name "err" name
    then (decode_int r.err v >>= λ x. some (record r { err = x }))
    else if same_name "errtxt" name
    then (decode_string r.err_txt v >>= λ x. some (record r { err_txt = x }))
    else if same_name "batches" name
    then (decode_list
          (decode_struct set_batch_list_entry (record { batch_id = pos 0; name = ""; state = "" }))
          r.batches v
        >>= λ x. some (record r { batches = x }))
    else some r

unfoldable pub decode_batch_list_result : Json → Option BatchListResult
unfolding set_batch_list_result
decode_batch_list_result =
    decode_struct set_batch_list_result (record { err = pos 0; err_txt = ""; batches = [] })

pub record FileReadResult : Type 0 where
  pub err : ℤ
  pub err_txt : String
  pub content : Bytes

set_file_read_result : String → Json → FileReadResult → Option FileReadResult
set_file_read_result name v r =
    if same_name "err" name
    then (decode_int r.err v >>= λ x. some (record r { err = x }))
    else if same_name "errtxt" name
    then (decode_string r.err_txt v >>= λ x. some (record r { err_txt = x }))
    else if same_name "data" name
    then (decode_bytes r.content v >>= λ x. some (record r { content = x }))
    else some r

unfoldable pub decode_file_read_result : Json → Option FileReadResult
unfolding set_file_read_result
decode_file_read_result =
    decode_struct set_file_read_result (record { err = pos 0; err_txt = ""; content = [] })
