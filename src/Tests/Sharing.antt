-- ===== src/Tests/Sharing.antt =====
-- Two requests for a job that overlap: both find the runner idle, and one is turned away.
use tcl_script_runner.Prelude.{false, true, [], ◌∷◌, refl}
use tcl_script_runner.Runner.Sharing.{
  looking, entering, running, turned_away, advance, Shared, Steps, stay, more,
}
use tcl_script_runner.Runner.Sharing.Exclusion.{IsExclusive, Steps-IsExclusive}

abbrev at_first : Shared
at_first = record { busy = false; requests = looking 2 ∷ looking 1 ∷ [] }

abbrev one_looked : Shared
one_looked = record { busy = false; requests = entering 2 ∷ looking 1 ∷ [] }

abbrev both_looked : Shared
both_looked = record { busy = false; requests = entering 2 ∷ entering 1 ∷ [] }

abbrev one_runs : Shared
one_runs = record { busy = true; requests = entering 2 ∷ running 1 ∷ [] }

abbrev at_last : Shared
at_last = record { busy = true; requests = turned_away ∷ running 1 ∷ [] }

after_one : Steps at_first 1 one_looked
unfolding advance
after_one = more stay (record {
  before = [];
  phase = looking 2;
  after = looking 1 ∷ [];
  found = refl;
  pending = refl;
  ends = true;
  flag = refl;
  moved = refl;
})

after_two : Steps at_first 2 both_looked
unfolding advance
after_two = more after_one (record {
  before = entering 2 ∷ [];
  phase = looking 1;
  after = [];
  found = refl;
  pending = refl;
  ends = true;
  flag = refl;
  moved = refl;
})

after_three : Steps at_first 3 one_runs
unfolding advance
after_three = more after_two (record {
  before = entering 2 ∷ [];
  phase = entering 1;
  after = [];
  found = refl;
  pending = refl;
  ends = true;
  flag = refl;
  moved = refl;
})

schedule : Steps at_first 4 at_last
unfolding advance
schedule = more after_three (record {
  before = [];
  phase = entering 2;
  after = running 1 ∷ [];
  found = refl;
  pending = refl;
  ends = true;
  flag = refl;
  moved = refl;
})

Steps-IsExclusive_example : IsExclusive at_last
Steps-IsExclusive_example = Steps-IsExclusive at_first refl schedule
