-- ===== src/Runner/Files.antt =====
-- internal/runner/job.go: `Save` and `LoadJob`.
pub mod RoundTrip
pub mod Returns
use tcl_script_runner.Prelude.{String, ◌<>◌, none, some}
use tcl_script_runner.Prelude.Text.{quote}
use tcl_script_runner.Outcome.{Outcome, ok, err, hang, wrap}
use tcl_script_runner.Os.{Prefixes, contents, missing, failed, replace_file}
use tcl_script_runner.Runner.Job.{Job}
use tcl_script_runner.Runner.Host.{Host}

abbrev pub prefixes : String → Prefixes
prefixes target = record {
  creating = "job: create temp: ";
  writing = "job: write temp: ";
  closing = "job: close temp: ";
  renaming = "job: rename to " <> quote target <> ": ";
}

module _ (H : Host) where
  abbrev pub job_path : String → String → String
  job_path data_dir id = H.os.join (H.os.join data_dir "jobs") (id <> ".json")

  -- `Save` from the outcome of `json.MarshalIndent` on.
  pub save_text : Job → String → Outcome String → H.os.State → Outcome (Unit {0}) × H.os.State
  save_text j data_dir (ok text) s =
      let target = job_path data_dir j.id in
      replace_file H.os (prefixes target) (H.os.join data_dir "jobs") "job-*.json.tmp" text target s
  save_text j data_dir (err e) s = (err ("job: marshal: " <> e), s)
  save_text j data_dir hang s = (hang, s)

  unfoldable pub save : Job → String → H.os.State → Outcome (Unit {0}) × H.os.State
  unfolding save_text
  save j data_dir s =
      let dir = H.os.join data_dir "jobs" in
      let (e, t) = H.os.mkdir_all dir s in
      elim e [
        | some message ↦ (err ("job: mkdir " <> quote dir <> ": " <> message), t)
        | none ↦ save_text j data_dir (H.marshal_job j) t
      ]

  unfoldable pub load_job : String → String → H.os.State → Outcome Job
  load_job data_dir id s =
      let path = job_path data_dir id in
      elim (H.os.read_file path s) [
        | contents text ↦ wrap ("job: parse " <> quote path <> ": ") (H.unmarshal_job text)
        | missing ↦ err ("job: read " <> quote path <> ": " <> H.os.not_exist path)
        | failed e ↦ err ("job: read " <> quote path <> ": " <> e)
      ]
