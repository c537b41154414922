-- ===== src/Becs/Recorder.antt =====
-- internal/becs/apilog.go: the ring buffer of recent traffic.
pub mod Window
use tcl_script_runner.Prelude.{
  ℕ, ◌-◌, String, Bool, List, [], ◌∷◌, ◌++◌, length, drop, ltb, eqb, if◌then◌else◌,
}

-- The time is in nanoseconds, and 0 is Go's zero time.
pub record LogEntry : Type 0 where
  pub time : ℕ
  pub dir : String
  pub method : String
  pub id : ℕ
  pub endpoint : String
  pub body : String

pub record Recorder : Type 0 where
  pub entries : List LogEntry
  pub max : ℕ

unfoldable pub new_recorder : ℕ → Recorder
new_recorder max = record { entries = []; max = max }

-- `if e.Time.IsZero() { e.Time = time.Now() }`
pub stamp : ℕ → LogEntry → LogEntry
stamp now e = if eqb e.time 0 then record e { time = now } else e

abbrev push : Recorder → List LogEntry → Recorder
push r entries =
    if ltb r.max (length entries)
    then record r { entries = drop (length entries - r.max) entries }
    else record r { entries = entries }

-- `Record` of a recorder that is not nil; `now` is what `time.Now` would give.
unfoldable pub add_entry : ℕ → LogEntry → Recorder → Recorder
unfolding stamp
add_entry now e r = push r (r.entries ++ stamp now e ∷ [])

unfoldable pub entries : Recorder → List LogEntry
entries r = r.entries

unfoldable pub clear : Recorder → Recorder
clear r = record r { entries = [] }

-- `becs.Log` before the first call.
abbrev pub global_log : Recorder
global_log = record { entries = []; max = 300 }
