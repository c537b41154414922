-- ===== src/Tests/Downloads.antt =====
-- The download of a run, over JSON that can write a job with one run, whose output is any text.
use tcl_script_runner.Prelude.{
  ℕ, String, ◌==◌, ◌&&◌, Bool, true, false, List, [], ◌∷◌, ◌≡◌, refl, arith, eqb, eq_iff,
  if◌then◌else◌,
}
use tcl_script_runner.Prelude.Int.{ℤ, pos, negsuc}
use tcl_script_runner.Outcome.{Outcome, ok, err}
use tcl_script_runner.Os.{IsLawful, replace_file}
use tcl_script_runner.Os.Memory.{memory}
use tcl_script_runner.Becs.Types.{NameValue}
use tcl_script_runner.Runner.Job.{Run, Job}
use tcl_script_runner.Runner.Host.{Host, Sys}
use tcl_script_runner.Runner.Files.{job_path, save}
use tcl_script_runner.Runner.Files.RoundTrip.{ReadsBack}
use tcl_script_runner.Web.App.{App, attachment, page_names}
use tcl_script_runner.Web.Jobs.{download_run}
use tcl_script_runner.Web.Jobs.Downloads.{Lacks, download_run-save}
use tcl_script_runner.Tests.World.{host}
use tcl_script_runner.Tests.Jobs

abbrev north_run : ℕ → ℕ → String → ℤ → String → String → String → Run
north_run started finished environment batch_id status output message = record {
  environment = environment;
  started_at = started;
  finished_at = finished;
  batch_id = batch_id;
  status = status;
  output = output;
  err = message;
}

abbrev job_of : ℕ → ℕ → String → String → List NameValue → List Run → Job
job_of started finished id script variables runs = record {
  id = id;
  started_at = started;
  finished_at = finished;
  script = script;
  variables = variables;
  runs = runs;
}

abbrev batch_of : ℤ → ℕ
batch_of (pos n) = n
batch_of (negsuc n) = 0

-- Just the output is free.
is_report : ℕ → ℕ → String → String → Run → Bool
is_report started finished id script run =
    eqb started 1
    && eqb finished 9
    && id == "job-1"
    && script == "puts 1"
    && run.environment == "north"
    && eqb run.started_at 2
    && eqb run.finished_at 8
    && eqb (batch_of run.batch_id) 7
    && run.status == "finished"
    && run.err == ""

text_of : Job → Outcome String
unfolding is_report
text_of j = elim j.variables as (λ _. Outcome String) [
  | v ∷ vs ↦ err "not supported"
  | [] ↦ elim j.runs as (λ _. Outcome String) [
    | [] ↦ err "not supported"
    | run ∷ runs ↦ elim runs as (λ _. Outcome String) [
      | r ∷ rs ↦ err "not supported"
      | [] ↦
          if is_report j.started_at j.finished_at j.id j.script run
          then ok run.output
          else err "not supported"
    ]
  ]
]

abbrev read_job : String → Job
read_job output =
    job_of 1 9 "job-1" "puts 1" [] (north_run 2 8 "north" (pos 7) "finished" output "" ∷ [])

-- What the test finds is the one job.
is_report_sound :
    (started finished : ℕ) (id script : String) (s f : ℕ) (environment : String) (batch_id : ℤ)
    (status output message : String)
    → is_report started finished id script
        (north_run s f environment batch_id status output message)
      ≡ true
    → read_job output
      ≡ job_of started finished id script []
          (north_run s f environment batch_id status output message ∷ [])
unfolding is_report
is_report_sound started finished id script s f environment (pos n) status output message h =
    ground (
      arith,
      eq_iff id "job-1",
      eq_iff script "puts 1",
      eq_iff environment "north",
      eq_iff status "finished",
      eq_iff message "",
    )
is_report_sound started finished id script s f environment (negsuc n) status output message h =
    ground (
      arith,
      eq_iff id "job-1",
      eq_iff script "puts 1",
      eq_iff environment "north",
      eq_iff status "finished",
      eq_iff message "",
    )

by_test :
    (b : Bool) (output : String) (j : Job) {text : String}
    → (b ≡ true → read_job output ≡ j)
    → ◌≡◌ {A = Outcome String} (if b then ok output else err "not supported") (ok text)
    → ◌≡◌ {A = Outcome Job} (ok (read_job text)) (ok j)
by_test true output j k h = cc (h, k refl)
by_test false output j k h = cc h

reads_back :
    (started finished : ℕ) (id script : String) (variables : List NameValue) (runs : List Run)
    {text : String}
    → text_of (job_of started finished id script variables runs) ≡ ok text
    → ◌≡◌ {A = Outcome Job}
        (ok (read_job text))
        (ok (job_of started finished id script variables runs))
unfolding text_of
reads_back started finished id script [] (run ∷ []) h =
    by_test (is_report started finished id script run) run.output _
      (is_report_sound started finished id script run.started_at run.finished_at run.environment
        run.batch_id run.status run.output run.err)
      h
reads_back started finished id script [] [] h = cc h
reads_back started finished id script [] (run ∷ r ∷ rs) h = cc h
reads_back started finished id script (v ∷ vs) runs h = cc h

unfoldable writer : Host
unfolding text_of
writer = record {
  net = Jobs.H.net;
  tunnels = Jobs.H.tunnels;
  os = Jobs.H.os;
  ciphers = Jobs.H.ciphers;
  format_id = Jobs.H.format_id;
  marshal_job = text_of;
  unmarshal_job = λ text. ok (read_job text);
}

writer-ReadsBack : ReadsBack writer
unfolding writer
writer-ReadsBack = record {
  unmarshal-marshal =
      λ j {text} e. reads_back j.started_at j.finished_at j.id j.script j.variables j.runs e;
}

lawful : IsLawful writer.os
unfolding writer
lawful = Jobs.lawful

lasting : writer.os.is_temp (job_path writer "data" "job-1") ≡ false
unfolding writer
lasting = Jobs.lasting "job-1"

abbrev app : App writer
app = record {
  run = record { cfg = Jobs.cfg; data_dir = "data"; passphrase = "pw"; busy = false };
  data_dir = "data";
  passphrase = "pw";
  tmpls = page_names;
}

abbrev at_start : Sys writer
unfolding writer
at_start = record { log = Jobs.start.log; world = Jobs.start.world; disk = Jobs.start.disk }

abbrev done_run : Run
done_run = north_run 2 8 "north" (pos 7) "finished" "12 rows" ""

saved : (save writer (read_job "12 rows") "data" at_start.disk).0 ≡ ok tt
unfolding writer host memory save replace_file text_of is_report
saved = refl

download_run-save_example :
    download_run writer "job-1" "north" app
      (record at_start { disk = (save writer (read_job "12 rows") "data" at_start.disk).1 })
    ≡ attachment "north-job-1.txt" "12 rows"
download_run-save_example =
    download_run-save writer lawful writer-ReadsBack app at_start (read_job "12 rows") lasting
      "north" [] [] done_run refl (unfold Lacks in tt) refl (λ e. cc e) saved
