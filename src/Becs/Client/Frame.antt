-- ===== src/Becs/Client/Frame.antt =====
-- What a call of client.go leaves alone, whatever comes back.
use Prim.Native.Nat.{ℕ, suc}
use tcl_script_runner.Prelude.{
  String, Bool, true, false, Option, none, some, ◌≡◌, ◌≢◌, refl, ◌∙◌, arith, eqb, if◌then◌else◌,
}
use tcl_script_runner.Outcome.{Outcome, ok, err, hang, wrap-ne-hang}
use tcl_script_runner.Prelude.Int.{ℤ, is_zero}
use tcl_script_runner.Json.{Json, print}
use tcl_script_runner.Becs.Types.{Response, decode_response}
use tcl_script_runner.Becs.Client.{
  Net, Client, Session, Act, Body, json, malformed, Reply, no_reply, reply, pure, fail_with,
  record_entry, do_request, next_request, check_url, proceed, ◌>>=◌, decode_result, on_response,
  on_body, on_reply, call, request, wrapped, check, ◌>>◌,
}
use tcl_script_runner.Becs.Redact.{redact}

-- An action that cannot run out of fuel and leaves the client as it is.
pub record Quiet {N : Net} {A : Type 0} (m : Act N A) : Type 0 where
  pub returns : (s : Session N) → (m s).0 ≢ hang
  pub client : (s : Session N) → (m s).1.client ≡ s.client

module _ (N : Net) where
  pub Quiet-pure : {A : Type 0} (a : A) → Quiet {N = N} (pure N a)
  unfolding pure
  Quiet-pure a = record { returns = λ s h. cc h; client = λ s. refl }

  pub Quiet-fail : {A : Type 0} (e : String) → Quiet {N = N} (fail_with N {A = A} e)
  unfolding fail_with
  Quiet-fail e = record { returns = λ s h. cc h; client = λ s. refl }

  pub Quiet-record : (dir method body : String) → Quiet (record_entry N dir method body)
  unfolding record_entry
  Quiet-record dir method body = record { returns = λ s h. cc h; client = λ s. refl }

  pub Quiet-do : (body : String) → Quiet (do_request N body)
  unfolding do_request
  Quiet-do body = record { returns = λ s h. cc h; client = λ s. refl }

  pub Quiet-check_url : Quiet (check_url N)
  unfolding check_url
  Quiet-check_url = record { returns = λ s h. ground arith; client = λ s. ground arith }

  module _ {A B : Type 0} where
    proceed-Quiet :
        (r : Outcome A) (f : A → Act N B) (s : Session N)
        → r ≢ hang
        → ((a : A) → Quiet (f a))
        → ((proceed N r f s).0 ≢ hang) × ((proceed N r f s).1.client ≡ s.client)
    proceed-Quiet (ok a) f s h q = ((q a).returns s, (q a).client s)
    proceed-Quiet (err e) f s h q = (λ k. cc k, refl)
    proceed-Quiet hang f s h q = absurd (h refl)

    pub Quiet-bind :
        (m : Act N A) (f : A → Act N B) → Quiet m → ((a : A) → Quiet (f a)) → Quiet (m >>= f)
    unfolding ◌>>=◌
    Quiet-bind m f qm qf = record {
      returns = λ s. (proceed-Quiet (m s).0 f (m s).1 (qm.returns s) qf).0;
      client = λ s. (proceed-Quiet (m s).0 f (m s).1 (qm.returns s) qf).1 ∙ qm.client s;
    }

module _ {N : Net} {A B : Type 0} where
  pub Quiet-option :
      (o : Option B) (m : Act N A) (f : B → Act N A)
      → Quiet m
      → ((b : B) → Quiet (f b))
      → Quiet (elim o as (λ _. Act N A) [ none ↦ m | some b ↦ f b ])
  Quiet-option none m f qm qf = qm
  Quiet-option (some b) m f qm qf = qf b

module _ {N : Net} {A : Type 0} where
  pub Quiet-if : (b : Bool) (m n : Act N A) → Quiet m → Quiet n → Quiet (if b then m else n)
  Quiet-if true m n qm qn = qm
  Quiet-if false m n qm qn = qn

  pub Quiet-wrapped : (prefix : String) (m : Act N A) → Quiet m → Quiet (wrapped N prefix m)
  unfolding wrapped
  Quiet-wrapped prefix m q = record {
    returns = λ s. wrap-ne-hang prefix (m s).0 (q.returns s);
    client = q.client;
  }

  pub Quiet-check :
      (method : String) (code : ℤ) (text : String) (m : Act N A)
      → Quiet m
      → Quiet (check N method code text m)
  unfolding check
  Quiet-check method code text m q = Quiet-if (is_zero code) m _ q (Quiet-fail N _)

module _ (N : Net) {A : Type 0} (method : String) (decode : Json → Option A) where
  Quiet-decode_result : (j : Option Json) → Quiet (decode_result N method decode j)
  unfolding decode_result
  Quiet-decode_result none = Quiet-fail N _
  Quiet-decode_result (some j) = Quiet-option (decode j) _ _ (Quiet-fail N _) (Quiet-pure N)

  Quiet-on_response : (r : Response) → Quiet (on_response N method decode r)
  unfolding on_response
  Quiet-on_response r =
      Quiet-option r.error _ _
        (Quiet-bind N _ _ (Quiet-record N _ _ _) (λ _. Quiet-decode_result r.result))
        (λ e. Quiet-bind N _ _ (Quiet-record N _ _ _) (λ _. Quiet-fail N _))

  Quiet-on_body : (b : Body) → Quiet (on_body N method decode b)
  unfolding on_body
  Quiet-on_body (malformed e) = Quiet-fail N _
  Quiet-on_body (json j) = Quiet-option (decode_response j) _ _ (Quiet-fail N _) Quiet-on_response

  Quiet-on_reply : (r : Reply) → Quiet (on_reply N method decode r)
  unfolding on_reply
  Quiet-on_reply (no_reply e) = Quiet-bind N _ _ (Quiet-record N _ _ _) (λ _. Quiet-fail N _)
  Quiet-on_reply (reply status body) =
      Quiet-if (eqb status 200) _ _ (Quiet-on_body body)
        (Quiet-bind N _ _ (Quiet-record N _ _ _) (λ _. Quiet-fail N _))

-- A client with the next request's number.
abbrev pub next : Client → Client
next c = record c { next_id = suc c.next_id }

module _ (N : Net) {A : Type 0} (method : String) (decode : Json → Option A) (params : Json) where
  send : ℕ → Act N A
  send id = do
    let body = print (request method params id)
    record_entry N "→" method (redact body)
    check_url N
    r ← do_request N body
    on_reply N method decode r

  Quiet-send : (id : ℕ) → Quiet (send id)
  unfolding send
  Quiet-send id = Quiet-bind N _ _ (Quiet-record N _ _ _) λ _.
      Quiet-bind N _ _ (Quiet-check_url N)
        λ _. Quiet-bind N _ _ (Quiet-do N _) λ r. Quiet-on_reply N method decode r

  call-send :
      (s : Session N)
      → call N method decode params s
        ≡ send (suc s.client.next_id) (record s { client = next s.client })
  unfolding call send next_request ◌>>=◌
  call-send s = refl

  -- A call returns.
  pub call_returns : (s : Session N) → (call N method decode params s).0 ≢ hang
  call_returns s =
      rw call-send
        ((Quiet-send (suc s.client.next_id)).returns (record s { client = next s.client }))

  -- All that a call does to the client, whatever comes back, is to count one request.
  pub client-call : (s : Session N) → (call N method decode params s).1.client ≡ next s.client
  client-call s =
      rw call-send
        ((Quiet-send (suc s.client.next_id)).client (record s { client = next s.client }))
