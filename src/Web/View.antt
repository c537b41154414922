-- ===== src/Web/View.antt =====
-- internal/web/handlers.go: what the templates show, and the functions that they call.
pub mod Snippets
use tcl_script_runner.Prelude.{
  ℕ, ◌-◌, ◌/◌, ◌%◌, String, ◌<>◌, ◌==◌, Bool, Option, none, some, List, ◌++◌, length, take, leb,
  ltb, eqb, map, if◌then◌else◌,
}
use tcl_script_runner.Prelude.Int.{ℤ, pos, negsuc}
use tcl_script_runner.Prelude.Text.{show_ℕ}
use tcl_script_runner.Prelude.Utf8.{Bytes, to_bytes}
use tcl_script_runner.Becs.Recorder.{LogEntry}
use tcl_script_runner.Runner.Job.{RunStatus, run_finished, run_stopped, run_error}

-- `text` is `time.Format` of the local time; 0 is Go's zero time.
unfoldable pub fmt_time : (ℕ → String) → ℕ → String
fmt_time text t = if eqb t 0 then "—" else text t

abbrev second : ℕ
second = 1000000000

-- The longest `time.Duration`, at which `Sub` stops.
abbrev max_duration : ℕ
max_duration = 9223372036854775807

-- The seconds of a difference that `Truncate` keeps.
whole_seconds : ℕ → ℕ
whole_seconds d = (if leb d max_duration then d else max_duration) / second

-- `d.Sub(start)` is negative if the clock went back.
between : ℕ → ℕ → String
unfolding whole_seconds
between start end =
    if ltb end start
    then (let n = whole_seconds (start - end) in if eqb n 0 then "0s" else "-" <> show_ℕ n <> "s")
    else (let n = whole_seconds (end - start) in
        if ltb n 60 then show_ℕ n <> "s" else show_ℕ (n / 60) <> "m " <> show_ℕ (n % 60) <> "s")

unfoldable pub fmt_duration : ℕ → ℕ → ℕ → String
unfolding between
fmt_duration now start end = between start (if eqb end 0 then now else end)

unfoldable pub in_progress : ℕ → Bool
in_progress t = eqb t 0

abbrev pub snippet_max : ℕ
snippet_max = 120

-- The length and the cut count bytes.
unfoldable pub snippet : String → Bytes
snippet s =
    let bytes = to_bytes s in
    if leb (length bytes) snippet_max then bytes else take snippet_max bytes ++ to_bytes "…"

unfoldable pub status_icon : RunStatus → String
status_icon s =
    if s == run_finished
    then "✓"
    else if s == run_stopped
    then "✗"
    else if s == run_error
    then "!"
    else "?"

pub record ApiLogView : Type 0 where
  pub ts : String
  pub dir : String
  pub dir_class : String
  pub method : String
  pub endpoint : String
  pub body : String
  pub id : ℕ

-- `json.Indent`, which fails on what is no JSON, and `time.Format` of the local time.
pub record Formats : Type 0 where
  pub indent : String → Option String
  pub clock : ℕ → String

unfoldable pub pretty_json : Formats → String → String
pretty_json F s = elim (F.indent s) [ none ↦ s | some text ↦ text ]

unfoldable pub dir_class : String → String
dir_class dir = if dir == "→" then "req" else if dir == "✗" then "err" else "resp"

unfoldable pub to_log_view : Formats → LogEntry → ApiLogView
unfolding pretty_json dir_class
to_log_view F e = record {
  ts = F.clock e.time;
  dir = e.dir;
  dir_class = dir_class e.dir;
  method = e.method;
  endpoint = e.endpoint;
  body = pretty_json F e.body;
  id = e.id;
}
