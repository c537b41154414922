-- ===== src/Becs/Moves.antt =====
-- client.go, batch.go and file.go: the calls of a client as moves of the world.
use tcl_script_runner.Prelude.{ℕ, zero, suc, String, Option, none, some, List, refl}
use tcl_script_runner.Prelude.Int.{ℤ}
use tcl_script_runner.Outcome.{Outcome, ok, err}
use tcl_script_runner.Becs.Types.{NameValue}
use tcl_script_runner.Becs.Client.{Net, Session}
use tcl_script_runner.Becs.Client.Moves.{
  stay, waited, Onward, Onward-refl, Moves, Moves-pure, Moves-bind, Moves-if, Moves-wrapped,
  Moves-check, Moves-call,
}
use tcl_script_runner.Becs.Sessions.{set_session, login, logout}
use tcl_script_runner.Becs.Batch.{batch_run, batch_info_get, pause, poll, is_terminal}
use tcl_script_runner.Becs.File.{file_read}

module _ (N : Net) where
  Moves-set_session : (id : String) → Moves (set_session N id)
  unfolding set_session
  Moves-set_session id s = record { route = refl; endpoint = refl; steps = stay }

  pub Moves-login : (username password : String) → Moves (login N username password)
  unfolding login
  Moves-login username password =
      Moves-bind N _ _ (Moves-wrapped _ _ (Moves-call N _ _ _))
        λ a. Moves-check _ a.err a.err_txt _ (Moves-set_session a.session_id)

  pub Moves-logout : Moves (logout N)
  unfolding logout
  Moves-logout s =
      Moves-bind N _ _ (Moves-wrapped _ _ (Moves-call N _ _ _))
        (λ a. Moves-check _ a.err a.err_txt _ (Moves-set_session "")) s

  pub Moves-batch_run :
      (name : String) (variables : List NameValue) (timeout_secs : ℤ)
      → Moves (batch_run N name variables timeout_secs)
  unfolding batch_run
  Moves-batch_run name variables timeout_secs s =
      Moves-bind N _ _ (Moves-wrapped _ _ (Moves-call N _ _ _))
        (λ a. Moves-check _ a.err a.err_txt _ (Moves-pure N _)) s

  pub Moves-batch_info_get : (batch_id : ℤ) → Moves (batch_info_get N batch_id)
  unfolding batch_info_get
  Moves-batch_info_get batch_id s =
      Moves-bind N _ _ (Moves-wrapped _ _ (Moves-call N _ _ _))
        (λ a. Moves-check _ a.err a.err_txt _ (Moves-pure N _)) s

  Moves-pause : (interval : ℤ) → Moves (pause N interval)
  unfolding pause
  Moves-pause interval s = by_error (N.wait interval s.world).0
    where
      by_error :
          (o : Option String)
          → let t = record s { world = (N.wait interval s.world).1 } in
            Onward s
              (elim o as (λ _. Outcome (Unit {0}) × Session N) [
                | none ↦ (ok tt, t)
                | some e ↦ (err e, t)
              ]).1
      by_error none = record { route = refl; endpoint = refl; steps = waited interval stay }
      by_error (some e) = record { route = refl; endpoint = refl; steps = waited interval stay }

  pub Moves-poll : (fuel : ℕ) (batch_id interval : ℤ) → Moves (poll N fuel batch_id interval)
  unfolding poll
  Moves-poll zero batch_id interval = λ s. Onward-refl s
  Moves-poll (suc fuel) batch_id interval = Moves-bind N _ _ (Moves-batch_info_get batch_id) λ r.
      Moves-if (is_terminal r.state) _ _ (Moves-pure N r)
        (Moves-bind N _ _ (Moves-pause interval) λ _. Moves-poll fuel batch_id interval)

  pub Moves-file_read : (path : String) → Moves (file_read N path)
  unfolding file_read
  Moves-file_read path s =
      Moves-bind N _ _ (Moves-wrapped _ _ (Moves-call N _ _ _))
        (λ a. Moves-check _ a.err a.err_txt _ (Moves-pure N _)) s
