-- ===== src/Becs/Sessions/Laws.antt =====
-- client.go: what `Login` and `Logout` leave in the client.
use mathlib.Core.Path.{subst}
use tcl_script_runner.Prelude.{
  zero, suc, sym, false, ◌↔◌, String, ◌≡◌, ◌≢◌, refl, ◌⊎◌, inl, inr, Bool-cases,
}
use tcl_script_runner.Prelude.Int.{ℤ, pos, negsuc, is_zero}
use tcl_script_runner.Outcome.{Outcome, ok, err, hang, wrap}
use tcl_script_runner.Becs.Types.{LoginResult, decode_login_result, decode_logout_result}
use tcl_script_runner.Becs.Client.{
  Net, Client, Session, Act, call, wrapped, check, fail_with, proceed, ◌>>=◌,
}
use tcl_script_runner.Becs.Client.Frame.{next, client-call, call_returns}
use tcl_script_runner.Becs.Sessions.{set_session, login, logout, login_params, logout_params}

-- A step that sets the session, or fails and leaves the client as the call left it.
abbrev pub Ends : {N : Net} → Client → (String → Type 0) → Outcome (Unit {0}) × Session N → Type 0
Ends c P (r, t) =
    ((id : String) × P id × (r ≡ ok tt) × (t.client ≡ record c { session_id = id }))
    ⊎ ((e : String) × (r ≡ err e) × (t.client ≡ c))

-- An answer that decodes, with the error code 0 and that session ID.
abbrev pub Grants : Outcome LoginResult → String → Type 0
Grants r id = (a : LoginResult) × (r ≡ ok a) × (a.err ≡ pos 0) × (id ≡ a.session_id)

zero_cases : (n : ℤ) → (n ≡ pos 0) ⊎ (is_zero n ≡ false)
zero_cases (pos zero) = inl refl
zero_cases (pos (suc n)) = inr refl
zero_cases (negsuc n) = inr refl

module _ (N : Net) where
  check-Ends :
      (method : String) (code : ℤ) (text id : String) (P : String → Type 0) (t : Session N)
      → P id
      → Ends t.client P (check N method code text (set_session N id) t)
  unfolding check set_session fail_with
  check-Ends method code text id P t p = elim (Bool-cases (is_zero code)) [
    | inl e ↦ rw e (inl (id, p, refl, refl))
    | inr e ↦ rw e (inr (_, refl, refl))
  ]

  proceed-Ends :
      {A : Type 0} (prefix : String) (r : Outcome A) (f : A → Act N (Unit {0}))
      (P : String → Type 0) (t : Session N)
      → r ≢ hang
      → ((a : A) → Ends t.client P (f a t))
      → Ends t.client P (proceed N (wrap prefix r) f t)
  proceed-Ends prefix (ok a) f P t h k = k a
  proceed-Ends prefix (err e) f P t h k = inr (_, refl, refl)
  proceed-Ends prefix hang f P t h k = absurd (h refl)

  nothing_else : (a b : LoginResult) → ◌≡◌ {A = Outcome LoginResult} (ok a) (ok b) → a ≡ b
  nothing_else a b h = cc h

  granted :
      (method : String) (a : LoginResult) (t : Session N) (code : ℤ)
      → a.err ≡ code
      → ((check N method code a.err_txt (set_session N a.session_id) t).0 ≡ ok tt) ↔ (code ≡ pos 0)
  unfolding check set_session fail_with
  granted method a t (pos zero) e = (λ h. refl, λ h. refl)
  granted method a t (pos (suc n)) e = (λ h. cc h, λ h. cc h)
  granted method a t (negsuc n) e = (λ h. cc h, λ h. cc h)

  set_by :
      (method : String) (code : ℤ) (text id : String) (t : Session N)
      → code ≡ pos 0
      → (check N method code text (set_session N id) t).1.client
        ≡ record t.client { session_id = id }
  unfolding check set_session
  set_by method code text id t e = rw e

  Grants-login :
      (r : Outcome LoginResult) (t : Session N)
      → ((proceed N
            (wrap "sessionLogin: " r)
            (λ a. check N "sessionLogin" a.err a.err_txt (set_session N a.session_id))
            t).0
          ≡ ok tt)
        ↔ ((id : String) × Grants r id)
  Grants-login (ok a) t = (
    λ h. (a.session_id, (a, refl, (granted "sessionLogin" a t a.err refl).0 h, refl)),
    λ g.
        let (id, (b, e, code, _)) = g in
        (granted "sessionLogin" a t a.err refl).1
          (subst (λ x. x.err ≡ pos 0) (sym (nothing_else a b e)) code),
  )
  Grants-login (err m) t = (λ h. cc h, λ g. cc (g.1.1))
  Grants-login hang t = (λ h. cc h, λ g. cc (g.1.1))

  Ends-login :
      (r : Outcome LoginResult) (t : Session N)
      → r ≢ hang
      → Ends t.client (Grants r) (
          proceed N
            (wrap "sessionLogin: " r)
            (λ a. check N "sessionLogin" a.err a.err_txt (set_session N a.session_id))
            t)
  unfolding check set_session fail_with
  Ends-login (ok a) t h = elim (zero_cases a.err) [
    | inl z ↦ inl (
      a.session_id,
      (a, refl, z, refl),
      (granted "sessionLogin" a t a.err refl).1 z,
      set_by "sessionLogin" a.err a.err_txt a.session_id t z,
    )
    | inr z ↦ rw z (inr (_, refl, refl))
  ]
  Ends-login (err m) t h = inr (_, refl, refl)
  Ends-login hang t h = absurd (h refl)

  -- Login succeeds exactly if the answer to its request decodes and has the error code 0. If it
  -- succeeds the client has the session ID of that answer, and if it fails the one that it had;
  -- either way Login returns, one request is counted and nothing else of the client changes.
  pub login-Ends :
      (username password : String) (s : Session N)
      → let answer =
          (call N "sessionLogin" decode_login_result (login_params username password) s).0 in
        (((login N username password s).0 ≡ ok tt) ↔ ((id : String) × Grants answer id))
        × Ends (next s.client) (Grants answer) (login N username password s)
  unfolding login wrapped ◌>>=◌
  login-Ends username password s =
      let m = call N "sessionLogin" decode_login_result (login_params username password) in
      (
        Grants-login (m s).0 (m s).1,
        subst (λ c. Ends c (Grants (m s).0) (login N username password s))
            (client-call N "sessionLogin" decode_login_result (login_params username password) s)
            (Ends-login (m s).0 (m s).1 (
              call_returns N "sessionLogin" decode_login_result (login_params username password)
                s)),
      )

  -- Logout returns. If it succeeds the session is cleared, and if it fails it is kept; either
  -- way one request is counted and nothing else of the client changes.
  pub logout-Ends : (s : Session N) → Ends (next s.client) (λ id. id ≡ "") (logout N s)
  unfolding logout wrapped ◌>>=◌
  logout-Ends s =
      let m = call N "sessionLogout" decode_logout_result (logout_params s.client.session_id) in
      subst (λ c. Ends c (λ id. id ≡ "") (logout N s))
        (client-call N "sessionLogout" decode_logout_result (logout_params s.client.session_id) s)
        (proceed-Ends "sessionLogout: " (m s).0
          (λ a. check N "sessionLogout" a.err a.err_txt (set_session N "")) (λ id. id ≡ "") (m s).1
          (call_returns N "sessionLogout" decode_logout_result (logout_params s.client.session_id)
            s)
          λ a. check-Ends "sessionLogout" a.err a.err_txt "" (λ id. id ≡ "") (m s).1 refl)

returned :
    {N : Net} {P : String → Type 0} (c : Client) (x : Outcome (Unit {0}) × Session N)
    → Ends c P x
    → x.0 ≢ hang
returned c (ok _, t) e = λ h. cc h
returned c (err m, t) e = λ h. cc h
returned c (hang, t) (inl (id, p, q, _)) = λ h. cc q
returned c (hang, t) (inr (m, q, _)) = λ h. cc q

pub login_returns :
    (N : Net) (username password : String) (s : Session N) → (login N username password s).0 ≢ hang
login_returns N username password s =
    returned (next s.client) (login N username password s) (login-Ends N username password s).1
