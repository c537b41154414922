-- ===== src/Os/Returns.antt =====
-- Whether the atomic replacement of a file returns.
use tcl_script_runner.Prelude.{String, ◌<>◌, none, some, ◌≢◌, refl}
use tcl_script_runner.Outcome.{Outcome, ok, err, hang}
use tcl_script_runner.Os.{
  Os, Error, Prefixes, discard, rename_step, close_step, write_step, replace_file,
}

module _ (O : Os) (p : Prefixes) where
  abbrev Returned : Outcome (Unit {0}) × O.State → Type 0
  Returned x = x.0 ≢ hang

  either :
      (e : Error) (x : Outcome (Unit {0}) × O.State) (y : String → Outcome (Unit {0}) × O.State)
      → Returned x
      → ((m : String) → Returned (y m))
      → Returned (elim e as (λ _. Outcome (Unit {0}) × O.State) [ none ↦ x | some m ↦ y m ])
  either none x y h k = h
  either (some m) x y h k = k m

  rename_step_returns :
      (tmp target : String) (s : O.State) → Returned (rename_step O p tmp target s)
  unfolding rename_step discard
  rename_step_returns tmp target s = either (O.rename tmp target s).0 _ _ (λ q. cc q) (λ m q. cc q)

  close_step_returns : (tmp target : String) (s : O.State) → Returned (close_step O p tmp target s)
  unfolding close_step discard
  close_step_returns tmp target s =
      either (O.close tmp s).0 _ _ (rename_step_returns tmp target _) (λ m q. cc q)

  write_step_returns :
      (tmp text target : String) (s : O.State) → Returned (write_step O p tmp text target s)
  unfolding write_step discard
  write_step_returns tmp text target s =
      either (O.write tmp text s).0 _ _ (close_step_returns tmp target _) (λ m q. cc q)

  created_returns :
      (text target : String) (r : Outcome String) (t : O.State)
      → r ≢ hang
      → Returned (elim r as (λ _. Outcome (Unit {0}) × O.State) [
        | ok tmp ↦ write_step O p tmp text target t
        | err message ↦ (err (p.creating <> message), t)
        | Outcome.hang ↦ (Outcome.hang, t)
      ])
  created_returns text target (ok tmp) t h = write_step_returns tmp text target t
  created_returns text target (err m) t h = λ q. cc q
  created_returns text target hang t h = absurd (h refl)

  pub replace_file_returns :
      (dir pattern text target : String) (s : O.State)
      → (O.create_temp dir pattern s).0 ≢ hang
      → (replace_file O p dir pattern text target s).0 ≢ hang
  unfolding replace_file
  replace_file_returns dir pattern text target s h =
      created_returns text target (O.create_temp dir pattern s).0 (O.create_temp dir pattern s).1 h
