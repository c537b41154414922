-- ===== src/Becs/File.antt =====
-- internal/becs/file.go: `FileRead`.
use tcl_script_runner.Prelude.{String, ◌<>◌}
use tcl_script_runner.Prelude.Int.{pos}
use tcl_script_runner.Prelude.Text.{quote}
use tcl_script_runner.Prelude.Utf8.{of_bytes}
use tcl_script_runner.Json.{Json, int, str, obj, end, field}
use tcl_script_runner.Becs.Results.{decode_file_read_result}
use tcl_script_runner.Becs.Client.{Net, Act, header, pure, call, wrapped, check, ◌>>=◌}

unfoldable pub file_read_params : String → String → Json
file_read_params session_id path = obj (
    field "_header" (header session_id) (
      field "file" (obj (field "path" (str path) end))
        (field "offset" (int (pos 0)) (field "length" (int (pos 100000)) end))))

module _ (N : Net) where
  unfoldable pub file_read : String → Act N String
  file_read path s =
      let method = "fileRead " <> quote path in
      (do
        result ←
            wrapped N (method <> ": ") (
              call N "fileRead" decode_file_read_result (file_read_params s.client.session_id path))
        check N method result.err result.err_txt (pure N (of_bytes result.content)))
        s
