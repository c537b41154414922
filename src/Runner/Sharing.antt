-- ===== src/Runner/Sharing.antt =====
-- internal/runner/runner.go and internal/web/handlers.go: requests for a job that overlap, by the busy
-- flag that they share. What a request does under the mutex is one step.
pub mod Exclusion
use tcl_script_runner.Prelude.{
  ℕ, zero, suc, Bool, true, false, List, [], ◌∷◌, ◌++◌, ◌≡◌, if◌then◌else◌,
}

-- Where a request stands: before the handler's `IsBusy`, before `RunJob` takes the mutex, in the loop with
-- so many environments left, or answered, with a job or with "busy".
pub data Phase : Type 0 where
  looking : ℕ → Phase
  entering : ℕ → Phase
  running : ℕ → Phase
  served : Phase
  turned_away : Phase

-- The next thing that a request does, with the flag that it finds and the one that it leaves. `ends` says
-- whether the run of the environment that is its turn ends here; `Poll` may ask again without end.
unfoldable pub advance : Bool → Bool → Phase → Bool × Phase
advance ends busy (looking n) = if busy then (busy, turned_away) else (busy, entering n)
advance ends busy (entering n) = if busy then (busy, turned_away) else (true, running n)
advance true busy (running (suc n)) = (busy, running n)
advance false busy (running (suc n)) = (busy, running (suc n))
advance ends busy (running zero) = (false, served)
advance ends busy served = (busy, served)
advance ends busy turned_away = (busy, turned_away)

abbrev pub is_answered : Phase → Bool
is_answered (looking n) = false
is_answered (entering n) = false
is_answered (running n) = false
is_answered served = true
is_answered turned_away = true

pub record Shared : Type 0 where
  pub busy : Bool
  pub requests : List Phase

-- One request goes one step on.
pub record Step (s t : Shared) : Type 0 where
  pub before : List Phase
  pub phase : Phase
  pub after : List Phase
  pub found : s.requests ≡ before ++ phase ∷ after
  pub pending : is_answered phase ≡ false
  pub ends : Bool
  pub flag : t.busy ≡ (advance ends s.busy phase).0
  pub moved : t.requests ≡ before ++ (advance ends s.busy phase).1 ∷ after

-- So many steps, by any of the requests in any order.
pub data Steps (s : Shared) : ℕ → Shared → Type 0 where
  stay : Steps s 0 s
  more : {n : ℕ} {t u : Shared} → Steps s n t → Step t u → Steps s (suc n) u
