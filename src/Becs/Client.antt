-- ===== src/Becs/Client.antt =====
-- internal/becs/client.go: the client and its calls. The network, the clock and the waiting are the
-- operations of `Net` over an unknown world.
pub mod Frame
pub mod Moves
use tcl_script_runner.Prelude.{ℕ, suc, String, ◌<>◌, Option, none, some, eqb, if◌then◌else◌}
use tcl_script_runner.Prelude.Int.{ℤ, pos, is_zero, show_ℤ}
use tcl_script_runner.Prelude.Text.{show_ℕ}
use tcl_script_runner.Outcome.{Outcome, ok, err, hang, wrap}
use tcl_script_runner.Json.{Json, int, str, obj, Fields, end, field, print}
use tcl_script_runner.Becs.Types.{Response, RpcError, decode_response}
use tcl_script_runner.Becs.Recorder.{LogEntry, Recorder, add_entry}
use tcl_script_runner.Becs.Redact.{redact}

-- How a connection is dialled: by the default transport, or by a tunnel's dialer.
pub data Route : Type 0 where
  default_route tunnel_route : Route

-- The body of a response is JSON or the text of the decoder's error.
pub data Body : Type 0 where
  json : Json → Body
  malformed : String → Body

-- What `http.Client.Do` gives: an error, or a status and a body.
pub data Reply : Type 0 where
  no_reply : String → Reply
  reply : ℕ → Body → Reply

pub record Net : Type 1 where
  pub World : Type 0
  pub now : World → ℕ × World
  -- The error of `http.NewRequest` for an endpoint, if any.
  pub bad_url : String → Option String
  pub post : Route → String → String → World → Reply × World
  -- `select` on the context and a timer of so many seconds: the context's error, if it is done.
  pub wait : ℤ → World → Option String × World
  -- The text of a JSON value as the server wrote it, and of `encoding/json`'s error about it.
  pub raw : Json → String
  pub json_error : Option Json → String

-- `http.Client` adds nothing but its transport and a timeout, whose end is an error of `post`.
pub record Client : Type 0 where
  pub endpoint : String
  pub route : Route
  pub session_id : String
  pub next_id : ℕ

unfoldable pub new_client : String → Route → Client
new_client endpoint route = record {
  endpoint = endpoint;
  route = route;
  session_id = "";
  next_id = 0;
}

-- A client with the program's recorder and the world.
pub record Session (N : Net) : Type 0 where
  pub client : Client
  pub log : Recorder
  pub world : N.World

abbrev pub header : String → Json
header session_id = obj (field "sessionid" (str session_id) end)

unfoldable pub request : String → Json → ℕ → Json
request method params id = obj (
    field "jsonrpc" (str "2.0")
      (field "method" (str method) (field "params" params (field "id" (int (pos id)) end))))

module _ (N : Net) where
  -- An action of a client: what was done stays done if it fails.
  abbrev pub Act : Type 0 → Type 0
  Act A = Session N → Outcome A × Session N

  unfoldable pub pure : {A : Type 0} → A → Act A
  pure a s = (ok a, s)

  unfoldable pub fail_with : {A : Type 0} → String → Act A
  fail_with message s = (err message, s)

  abbrev pub proceed : {A B : Type 0} → Outcome A → (A → Act B) → Act B
  proceed (ok a) f s = f a s
  proceed (err e) f s = (err e, s)
  proceed hang f s = (hang, s)

  -- `Log.Record` of a message of the client; the time is taken as it is recorded.
  unfoldable pub record_entry : String → String → String → Act (Unit {0})
  record_entry dir method body s =
      let (now, w) = N.now s.world in
      let e : LogEntry = record {
        time = 0;
        dir = dir;
        method = method;
        id = s.client.next_id;
        endpoint = s.client.endpoint;
        body = body;
      } in
      (ok tt, record s { log = add_entry now e s.log; world = w })

  -- `c.http.Do` of a POST.
  unfoldable pub do_request : String → Act Reply
  do_request body s =
      let (r, w) = N.post s.client.route s.client.endpoint body s.world in
      (ok r, record s { world = w })

  unfoldable pub next_request : Act ℕ
  next_request s =
      let n = suc s.client.next_id in (ok n, record s { client = record s.client { next_id = n } })

  unfoldable pub check_url : Act (Unit {0})
  check_url s = elim (N.bad_url s.client.endpoint) [
    | none ↦ (ok tt, s)
    | some e ↦ (err ("build request: " <> e), s)
  ]

infixl 5 ◌>>=◌ ◌>>◌
unfoldable pub ◌>>=◌ : {N : Net} {A B : Type 0} → Act N A → (A → Act N B) → Act N B
unfolding pure fail_with
◌>>=◌ {N} m f s = let (r, t) = m s in proceed N r f t

abbrev pub ◌>>◌ : {N : Net} {A B : Type 0} → Act N A → Act N B → Act N B
m >> k = m >>= λ _. k

module _ (N : Net) {A : Type 0} (method : String) (decode : Json → Option A) where
  -- `json.Unmarshal(rpcResp.Result, out)`; an absent result is no JSON.
  unfoldable pub decode_result : Option Json → Act N A
  decode_result none = fail_with N ("decode result: " <> N.json_error none)
  decode_result (some j) = elim (decode j) [
    | none ↦ fail_with N ("decode result: " <> N.json_error (some j))
    | some a ↦ pure N a
  ]

  abbrev raw_result : Option Json → String
  raw_result none = ""
  raw_result (some j) = N.raw j

  unfoldable pub on_response : Response → Act N A
  on_response r = elim r.error [
    | some e ↦ do
      let message = "rpc error " <> show_ℤ e.code <> ": " <> e.message
      record_entry N "✗" method message
      fail_with N message
    | none ↦ do record_entry N "←" method (redact (raw_result r.result)); decode_result r.result
  ]

  unfoldable pub on_body : Body → Act N A
  on_body (malformed e) = fail_with N ("decode response: " <> e)
  on_body (json j) = elim (decode_response j) [
    | none ↦ fail_with N ("decode response: " <> N.json_error (some j))
    | some r ↦ on_response r
  ]

  unfoldable pub on_reply : Reply → Act N A
  on_reply (no_reply e) = do
    record_entry N "✗" method ("http error: " <> e)
    fail_with N ("http: " <> e)
  on_reply (reply status body) = if eqb status 200 then on_body body else do
    record_entry N "✗" method ("http status " <> show_ℕ status)
    fail_with N ("http status " <> show_ℕ status)

  -- `json.Marshal` of a request of the program's types never fails.
  unfoldable pub call : Json → Act N A
  unfolding on_reply on_body on_response decode_result
  call params = do
    id ← next_request N
    let body = print (request method params id)
    record_entry N "→" method (redact body)
    check_url N
    r ← do_request N body
    on_reply r

module _ (N : Net) {A : Type 0} where
  -- `fmt.Errorf(prefix + "%w", err)` about the outcome of an action.
  unfoldable pub wrapped : String → Act N A → Act N A
  wrapped prefix m s = let (r, t) = m s in (wrap prefix r, t)

  -- The check of BECS's own error code, which follows each call.
  unfoldable pub check : String → ℤ → String → Act N A → Act N A
  check method code text next =
      if is_zero code
      then next
      else fail_with N (method <> ": BECS error " <> show_ℤ code <> ": " <> text)
