-- ===== src/Runner/Listing/Order.antt =====
-- job.go: the order in which `ListJobs` gives the jobs, and what sort.Slice promises of it.
use tcl_script_runner.Prelude.{◌≤◌, Bool, true, false, List, [], ◌∷◌, ◌≡◌, ◌↔◌, ◌⊎◌, arith}
use tcl_script_runner.Runner.Job.{Job}
use tcl_script_runner.Runner.Listing.{newer}

abbrev pub In : {A : Type 0} → A → List A → Type 0
In x [] = ⊥
In x (y ∷ ys) = (x ≡ y) ⊎ In x ys

-- No job was started later than one before it.
abbrev pub NewestFirst : List Job → Type 0
NewestFirst [] = Unit
NewestFirst (j ∷ jobs) = ((k : Job) → In k jobs → k.started_at ≤ j.started_at) × NewestFirst jobs

-- A strict weak order, which sort.Slice asks for.
pub record IsOrder (less : Job → Job → Bool) : Type 0 where
  pub asymmetric : (j k : Job) → less j k ≡ true → less k j ≡ false
  pub ranked : (i j k : Job) → less i j ≡ false → less j k ≡ false → less i k ≡ false

-- No job is less than one before it.
abbrev pub Ordered : (Job → Job → Bool) → List Job → Type 0
Ordered less [] = Unit
Ordered less (j ∷ jobs) = ((k : Job) → In k jobs → less k j ≡ false) × Ordered less jobs

-- `sort.Slice`, for any order: it keeps the elements and puts them in that order.
pub record Sorts (sort : (Job → Job → Bool) → List Job → List Job) : Type 0 where
  pub kept :
      (less : Job → Job → Bool) (j : Job) (jobs : List Job) → In j (sort less jobs) ↔ In j jobs
  pub ordered :
      (less : Job → Job → Bool) (jobs : List Job) → IsOrder less → Ordered less (sort less jobs)

pub newer-IsOrder : IsOrder newer
unfolding newer
newer-IsOrder = record { asymmetric = λ j k h. ground arith; ranked = λ i j k h g. ground arith }

not_newer : (j k : Job) → newer k j ≡ false → k.started_at ≤ j.started_at
unfolding newer
not_newer j k h = ground arith

pub Ordered-NewestFirst : (jobs : List Job) → Ordered newer jobs → NewestFirst jobs
Ordered-NewestFirst [] o = tt
Ordered-NewestFirst (j ∷ jobs) (first, o) =
    (λ k i. not_newer j k (first k i), Ordered-NewestFirst jobs o)
