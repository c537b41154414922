-- ===== src/Runner/Files/Returns.antt =====
-- job.go: whether `Save` returns.
use tcl_script_runner.Prelude.{String, Option, none, some, ◌≢◌, refl}
use tcl_script_runner.Outcome.{Outcome, ok, err, hang}
use tcl_script_runner.Os.Returns.{replace_file_returns}
use tcl_script_runner.Runner.Job.{Job}
use tcl_script_runner.Runner.Host.{Host}
use tcl_script_runner.Runner.Files.{prefixes, job_path, save_text, save}

module _ (H : Host)
    (temps : (dir pattern : String) (s : H.os.State)
      → (H.os.create_temp dir pattern s).0 ≢ hang) where
  save_text_returns :
      (j : Job) (data_dir : String) (m : Outcome String) (s : H.os.State)
      → m ≢ hang
      → (save_text H j data_dir m s).0 ≢ hang
  unfolding save_text
  save_text_returns j data_dir (ok text) s h =
      replace_file_returns H.os (prefixes (job_path H data_dir j.id)) _ _ text _ s (temps _ _ s)
  save_text_returns j data_dir (err e) s h = λ q. cc q
  save_text_returns j data_dir hang s h = absurd (h refl)

  made :
      (e : Option String) (m : String → String) (t : H.os.State)
      (y : Outcome (Unit {0}) × H.os.State)
      → y.0 ≢ hang
      → (elim e as (λ _. Outcome (Unit {0}) × H.os.State) [
        | some message ↦ (err (m message), t)
        | none ↦ y
      ]).0
        ≢ hang
  made none m t y h = h
  made (some e) m t y h = λ q. cc q

  pub save_returns :
      (j : Job) (data_dir : String) (s : H.os.State)
      → H.marshal_job j ≢ hang
      → (save H j data_dir s).0 ≢ hang
  unfolding save
  save_returns j data_dir s h =
      made (H.os.mkdir_all (H.os.join data_dir "jobs") s).0 _ _ _
        (save_text_returns j data_dir (H.marshal_job j) _ h)
