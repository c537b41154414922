-- ===== src/Becs/Client/Moves.antt =====
-- What an action of a client does to the world: reads of the clock, waits, and requests by the
-- client's own route to its own endpoint.
use mathlib.Core.Path.{subst}
use tcl_script_runner.Prelude.{
  String, ◌<>◌, Bool, true, false, Option, none, some, ◌≡◌, refl, ◌∙◌, eqb, if◌then◌else◌,
}
use tcl_script_runner.Prelude.Int.{ℤ, is_zero}
use tcl_script_runner.Outcome.{Outcome, ok, err, hang}
use tcl_script_runner.Json.{Json}
use tcl_script_runner.Becs.Types.{Response, decode_response}
use tcl_script_runner.Becs.Client.{
  Net, Session, Act, Route, Body, json, malformed, Reply, no_reply, reply, pure, fail_with,
  record_entry, do_request, next_request, check_url, proceed, ◌>>=◌, decode_result, on_response,
  on_body, on_reply, call, wrapped, check,
}

module _ (N : Net) (route : Route) (endpoint : String) where
  pub data Steps : N.World → N.World → Type 0 where
    stay : {w : N.World} → Steps w w
    ticked : {w v : N.World} → Steps w v → Steps w (N.now v).1
    posted : {w v : N.World} (body : String) → Steps w v → Steps w (N.post route endpoint body v).1
    waited : {w v : N.World} (interval : ℤ) → Steps w v → Steps w (N.wait interval v).1

  pub Steps-trans : {w v u : N.World} → Steps w v → Steps v u → Steps w u
  Steps-trans x stay = x
  Steps-trans x (ticked y) = ticked (Steps-trans x y)
  Steps-trans x (posted body y) = posted body (Steps-trans x y)
  Steps-trans x (waited interval y) = waited interval (Steps-trans x y)

pub record Onward {N : Net} (s t : Session N) : Type 0 where
  pub route : t.client.route ≡ s.client.route
  pub endpoint : t.client.endpoint ≡ s.client.endpoint
  pub steps : Steps N s.client.route s.client.endpoint s.world t.world

pub Onward-refl : {N : Net} (s : Session N) → Onward s s
Onward-refl s = record { route = refl; endpoint = refl; steps = stay }

pub Onward-trans : {N : Net} {s t u : Session N} → Onward s t → Onward t u → Onward s u
Onward-trans {N} {s} {t} {u} x y = record {
  route = y.route ∙ x.route;
  endpoint = y.endpoint ∙ x.endpoint;
  steps = Steps-trans N s.client.route s.client.endpoint x.steps (
      subst (λ e. Steps N s.client.route e t.world u.world) x.endpoint
        (subst (λ r. Steps N r t.client.endpoint t.world u.world) x.route y.steps));
}

abbrev pub Moves : {N : Net} {A : Type 0} → Act N A → Type 0
Moves {N} m = (s : Session N) → Onward s (m s).1

module _ (N : Net) where
  pub Moves-pure : {A : Type 0} (a : A) → Moves {N = N} (pure N a)
  unfolding pure
  Moves-pure a s = Onward-refl s

  pub Moves-fail : (A : Type 0) (e : String) → Moves {N = N} {A = A} (fail_with N {A = A} e)
  unfolding fail_with
  Moves-fail A e s = Onward-refl s

  pub Moves-record : (dir method body : String) → Moves (record_entry N dir method body)
  unfolding record_entry
  Moves-record dir method body s = record { route = refl; endpoint = refl; steps = ticked stay }

  Moves-do : (body : String) → Moves (do_request N body)
  unfolding do_request
  Moves-do body s = record { route = refl; endpoint = refl; steps = posted body stay }

  Moves-next : Moves (next_request N)
  unfolding next_request
  Moves-next s = record { route = refl; endpoint = refl; steps = stay }

  Moves-check_url : Moves (check_url N)
  unfolding check_url
  Moves-check_url s = by_error (N.bad_url s.client.endpoint)
    where
      by_error :
          (o : Option String)
          → Onward s
              (elim o as (λ _. Outcome (Unit {0}) × Session N) [
                | none ↦ (ok tt, s)
                | some e ↦ (err ("build request: " <> e), s)
              ]).1
      by_error none = Onward-refl s
      by_error (some e) = Onward-refl s

  module _ {A B : Type 0} where
    Moves-proceed :
        (r : Outcome A) (f : A → Act N B) (t : Session N)
        → ((a : A) → Moves (f a))
        → Onward t (proceed N r f t).1
    Moves-proceed (ok a) f t q = q a t
    Moves-proceed (err e) f t q = Onward-refl t
    Moves-proceed hang f t q = Onward-refl t

    pub Moves-bind :
        (m : Act N A) (f : A → Act N B) → Moves m → ((a : A) → Moves (f a)) → Moves (m >>= f)
    unfolding ◌>>=◌
    Moves-bind m f p q s = Onward-trans (p s) (Moves-proceed (m s).0 f (m s).1 q)

module _ {N : Net} {A : Type 0} where
  Moves-option :
      {B : Type 0} (o : Option B) (m : Act N A) (f : B → Act N A)
      → Moves m
      → ((b : B) → Moves (f b))
      → Moves (elim o as (λ _. Act N A) [ none ↦ m | some b ↦ f b ])
  Moves-option none m f p q = p
  Moves-option (some b) m f p q = q b

  pub Moves-if : (b : Bool) (m n : Act N A) → Moves m → Moves n → Moves (if b then m else n)
  Moves-if true m n p q = p
  Moves-if false m n p q = q

  pub Moves-wrapped : (prefix : String) (m : Act N A) → Moves m → Moves (wrapped N prefix m)
  unfolding wrapped
  Moves-wrapped prefix m p = p

  pub Moves-check :
      (method : String) (code : ℤ) (text : String) (m : Act N A)
      → Moves m
      → Moves (check N method code text m)
  unfolding check
  Moves-check method code text m p = Moves-if (is_zero code) m _ p (Moves-fail N _ _)

module _ (N : Net) {A : Type 0} (method : String) (decode : Json → Option A) where
  Moves-decode_result : (j : Option Json) → Moves (decode_result N method decode j)
  unfolding decode_result
  Moves-decode_result none = Moves-fail N _ _
  Moves-decode_result (some j) = Moves-option (decode j) _ _ (Moves-fail N _ _) (Moves-pure N)

  Moves-on_response : (r : Response) → Moves (on_response N method decode r)
  unfolding on_response
  Moves-on_response r =
      Moves-option r.error _ _
        (Moves-bind N _ _ (Moves-record N _ _ _) (λ _. Moves-decode_result r.result))
        (λ e. Moves-bind N _ _ (Moves-record N _ _ _) (λ _. Moves-fail N _ _))

  Moves-on_body : (b : Body) → Moves (on_body N method decode b)
  unfolding on_body
  Moves-on_body (malformed e) = Moves-fail N _ _
  Moves-on_body (json j) = Moves-option (decode_response j) _ _ (Moves-fail N _ _) Moves-on_response

  Moves-on_reply : (r : Reply) → Moves (on_reply N method decode r)
  unfolding on_reply
  Moves-on_reply (no_reply e) = Moves-bind N _ _ (Moves-record N _ _ _) (λ _. Moves-fail N _ _)
  Moves-on_reply (reply status body) =
      Moves-if (eqb status 200) _ _ (Moves-on_body body)
        (Moves-bind N _ _ (Moves-record N _ _ _) (λ _. Moves-fail N _ _))

  pub Moves-call : (params : Json) → Moves (call N method decode params)
  unfolding call
  Moves-call params = Moves-bind N _ _ (Moves-next N) λ id.
      Moves-bind N _ _ (Moves-record N _ _ _) λ _.
        Moves-bind N _ _ (Moves-check_url N) λ _. Moves-bind N _ _ (Moves-do N _) Moves-on_reply
