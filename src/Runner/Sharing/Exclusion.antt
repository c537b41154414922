-- ===== src/Runner/Sharing/Exclusion.antt =====
-- runner.go: how many jobs run at once, against the busy flag.
use tcl_script_runner.Prelude.{
  ℕ, zero, suc, ◌+◌, Bool, true, false, List, [], ◌∷◌, ◌++◌, ◌≡◌, sym, ap, ◌∙◌, arith,
}
use tcl_script_runner.Runner.Sharing.{
  Phase, looking, entering, running, served, turned_away, advance, Shared, Step, Steps, stay, more,
}

abbrev pub weight : Phase → ℕ
weight (looking n) = 0
weight (entering n) = 0
weight (running n) = 1
weight served = 0
weight turned_away = 0

-- How many jobs run.
abbrev pub jobs_running : List Phase → ℕ
jobs_running [] = 0
jobs_running (p ∷ ps) = weight p + jobs_running ps

abbrev pub bit : Bool → ℕ
bit true = 1
bit false = 0

-- A job runs exactly if the flag is set, and only one.
abbrev pub IsExclusive : Shared → Type 0
IsExclusive s = jobs_running s.requests ≡ bit s.busy

jobs_running-append :
    (ps qs : List Phase) → jobs_running (ps ++ qs) ≡ jobs_running ps + jobs_running qs
jobs_running-append [] qs = omega arith
jobs_running-append (p ∷ ps) qs = omega (arith, jobs_running-append ps qs)

-- A step of one request beside so many jobs of others.
advance-bit :
    (ends busy : Bool) (p : Phase) (others : ℕ)
    → weight p + others ≡ bit busy
    → weight (advance ends busy p).1 + others ≡ bit (advance ends busy p).0
unfolding advance
advance-bit ends true (looking n) others h = h
advance-bit ends false (looking n) others h = h
advance-bit ends true (entering n) others h = h
advance-bit ends false (entering n) others h = omega (arith, h)
advance-bit true busy (running (suc n)) others h = h
advance-bit false busy (running (suc n)) others h = h
advance-bit ends true (running zero) others h = omega (arith, h)
advance-bit ends false (running zero) others h = absurd (omega (arith, h))
advance-bit ends busy served others h = h
advance-bit ends busy turned_away others h = h

spread :
    (before after : List Phase) (p : Phase)
    → jobs_running (before ++ p ∷ after) ≡ weight p + (jobs_running before + jobs_running after)
spread before after p = omega (arith, jobs_running-append before (p ∷ after))

Step-IsExclusive : {s t : Shared} → Step s t → IsExclusive s → IsExclusive t
Step-IsExclusive {s} {t} x h =
    let others = jobs_running x.before + jobs_running x.after in
    let now : weight x.phase + others ≡ bit s.busy =
      sym (spread x.before x.after x.phase) ∙ ap jobs_running (sym x.found) ∙ h in
    ap jobs_running x.moved
    ∙ spread x.before x.after (advance x.ends s.busy x.phase).1
    ∙ advance-bit x.ends s.busy x.phase others now
    ∙ ap bit (sym x.flag)

-- If just as many jobs run as the busy flag says, then this still holds after any steps of
-- requests that overlap: never do two jobs run at once, and the flag is set exactly while one
-- runs.
pub Steps-IsExclusive :
    (s : Shared) {n : ℕ} {t : Shared} → IsExclusive s → Steps s n t → IsExclusive t
Steps-IsExclusive s h stay = h
Steps-IsExclusive s h (more xs x) = Step-IsExclusive x (Steps-IsExclusive s h xs)
