-- ===== src/Becs/Batch/Returns.antt =====
-- batch.go: which calls return.
use tcl_script_runner.Prelude.{
  ℕ, suc, ◌≡◌, Bool, true, false, some, if◌then◌else◌, String, List, ◌≢◌, refl,
}
use tcl_script_runner.Prelude.Int.{ℤ}
use tcl_script_runner.Outcome.{Outcome, ok, err, hang, wrap-ne-hang}
use tcl_script_runner.Becs.Types.{NameValue}
use tcl_script_runner.Becs.Client.{pure, ◌>>◌, Net, Session, Act, proceed, wrapped, ◌>>=◌}
use tcl_script_runner.Becs.Client.Frame.{Quiet-check, Quiet-pure, call_returns}
use tcl_script_runner.Becs.Batch.{RunResult, batch_run, batch_info_get, pause, poll, is_terminal}

module _ (N : Net) where
  proceed-ne-hang :
      {A B : Type 0} (r : Outcome A) (f : A → Act N B) (t : Session N)
      → r ≢ hang
      → ((a : A) → (f a t).0 ≢ hang)
      → (proceed N r f t).0 ≢ hang
  proceed-ne-hang (ok a) f t h k = k a
  proceed-ne-hang (err e) f t h k = λ q. cc q
  proceed-ne-hang hang f t h k = absurd (h refl)

  pub batch_run_returns :
      (name : String) (variables : List NameValue) (timeout_secs : ℤ) (s : Session N)
      → (batch_run N name variables timeout_secs s).0 ≢ hang
  unfolding batch_run wrapped ◌>>=◌
  batch_run_returns name variables timeout_secs s =
      proceed-ne-hang _ _ _ (wrap-ne-hang _ _ (call_returns N _ _ _ s))
        λ a. (Quiet-check "batchRun" a.err a.err_txt _ (Quiet-pure N a.batch_id)).returns _

  pub batch_info_get_returns :
      (batch_id : ℤ) (s : Session N) → (batch_info_get N batch_id s).0 ≢ hang
  unfolding batch_info_get wrapped ◌>>=◌
  batch_info_get_returns batch_id s =
      proceed-ne-hang _ _ _ (wrap-ne-hang _ _ (call_returns N _ _ _ s))
        λ a. (Quiet-check "batchInfoGet" a.err a.err_txt _ (Quiet-pure N _)).returns _

  module _
      (done : (interval : ℤ) (w : N.World) → (e : String) × ((N.wait interval w).0 ≡ some e)) where
    pause_ends :
        (interval : ℤ) (m : Act N RunResult) (s : Session N) → ((pause N interval >> m) s).0 ≢ hang
    unfolding pause ◌>>=◌
    pause_ends interval m s h = let (e, w) = done interval s.world in cc (rw (pause, w) at h)

    either_ends :
        (b : Bool) (r : RunResult) (interval : ℤ) (m : Act N RunResult) (s : Session N)
        → ((if b then pure N r else (pause N interval >> m)) s).0 ≢ hang
    unfolding pure
    either_ends true r interval m s = λ h. cc h
    either_ends false r interval m s = pause_ends interval m s

    -- Where the context is done, one round of `Poll` ends it.
    pub poll_returns :
        (fuel : ℕ) (batch_id interval : ℤ) (s : Session N)
        → (poll N (suc fuel) batch_id interval s).0 ≢ hang
    unfolding poll ◌>>=◌
    poll_returns fuel batch_id interval s =
        proceed-ne-hang _ _ _ (batch_info_get_returns batch_id s)
          λ r. either_ends (is_terminal r.state) r interval (poll N fuel batch_id interval) _
