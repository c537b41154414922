-- ===== src/Becs/Sessions.antt =====
-- internal/becs/client.go: `Login` and `Logout`.
pub mod Laws
use tcl_script_runner.Prelude.{String, some}
use tcl_script_runner.Json.{Json, str, obj, end, field}
use tcl_script_runner.Outcome.{Outcome, ok}
use tcl_script_runner.Becs.Types.{
  LoginResult, decode_login_result, LogoutResult, decode_logout_result,
}
use tcl_script_runner.Becs.Client.{Net, Session, Act, header, call, wrapped, check, ◌>>=◌, ◌>>◌}

unfoldable pub login_params : String → String → Json
login_params username password = obj (
    field "_header" (header "")
      (field "username" (str username) (field "password" (str password) end)))

unfoldable pub logout_params : String → Json
logout_params session_id = obj (field "_header" (header session_id) end)

module _ (N : Net) where
  unfoldable pub set_session : String → Act N (Unit {0})
  set_session id s = (ok tt, record s { client = record s.client { session_id = id } })

  unfoldable pub login : String → String → Act N (Unit {0})
  unfolding set_session
  login username password = do
    result ←
        wrapped N "sessionLogin: "
          (call N "sessionLogin" decode_login_result (login_params username password))
    check N "sessionLogin" result.err result.err_txt (set_session result.session_id)

  unfoldable pub logout : Act N (Unit {0})
  unfolding set_session
  logout s =
      (do
        result ←
            wrapped N "sessionLogout: "
              (call N "sessionLogout" decode_logout_result (logout_params s.client.session_id))
        check N "sessionLogout" result.err result.err_txt (set_session ""))
        s
