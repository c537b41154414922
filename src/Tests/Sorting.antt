-- ===== src/Tests/Sorting.antt =====
-- A sort by insertion, and `ListJobs` with it.
use mathlib.Core.Path.{subst}
use tcl_script_runner.Prelude.{
  sym, ◌<>◌, Bool, true, false, List, [], ◌∷◌, ◌≡◌, ◌↔◌, ◌⊎◌, inl, inr, refl, if◌then◌else◌, some,
}
use tcl_script_runner.Outcome.{ok}
use tcl_script_runner.Runner.Job.{Job, new_job}
use tcl_script_runner.Runner.Files.{save}
use tcl_script_runner.Runner.Listing.{DirEntry, listed, list_jobs}
use tcl_script_runner.Runner.Listing.Order.{In, NewestFirst, IsOrder, Ordered, Sorts}
use tcl_script_runner.Runner.Listing.Exact.{Holds, list_jobs-Found, list_jobs-save}
use tcl_script_runner.Tests.World.{host-ReadsBack}
use tcl_script_runner.Tests.Jobs.{H, brief_job, lawful, lasting, saved, start}

insert : (Job → Job → Bool) → Job → List Job → List Job
insert less j [] = j ∷ []
insert less j (k ∷ ks) = if less k j then k ∷ insert less j ks else j ∷ k ∷ ks

sort : (Job → Job → Bool) → List Job → List Job
unfolding insert
sort less [] = []
sort less (j ∷ js) = insert less j (sort less js)

by_test :
    (b : Bool) (i j k : Job) (ks xs : List Job)
    → (In i xs ↔ ((i ≡ j) ⊎ In i ks))
    → In i (if b then k ∷ xs else j ∷ k ∷ ks) ↔ ((i ≡ j) ⊎ In i (k ∷ ks))
by_test true i j k ks xs ih = (
  λ m. elim m [
    | inl e ↦ inr (inl e)
    | inr n ↦ (elim (ih.0 n) [ inl e ↦ inl e | inr o ↦ inr (inr o) ])
  ],
  λ m. elim m [
    | inl e ↦ inr (ih.1 (inl e))
    | inr n ↦ (elim n [ inl e ↦ inl e | inr o ↦ inr (ih.1 (inr o)) ])
  ],
)
by_test false i j k ks xs ih = (λ m. m, λ m. m)

module _ (less : Job → Job → Bool) where
  In-insert : (i j : Job) (ks : List Job) → In i (insert less j ks) ↔ ((i ≡ j) ⊎ In i ks)
  unfolding insert
  In-insert i j [] = (λ m. m, λ m. m)
  In-insert i j (k ∷ ks) = by_test (less k j) i j k ks (insert less j ks) (In-insert i j ks)

  In-sort : (i : Job) (js : List Job) → In i (sort less js) ↔ In i js
  unfolding sort
  In-sort i [] = (λ m. m, λ m. m)
  In-sort i (j ∷ js) =
      let ih = In-sort i js in
      let k = In-insert i j (sort less js) in
      (
        λ m. elim (k.0 m) [ inl e ↦ inl e | inr o ↦ inr (ih.0 o) ],
        λ m. k.1 (elim m as (λ _. (i ≡ j) ⊎ In i (sort less js)) [
          | inl e ↦ inl e
          | inr o ↦ inr (ih.1 o)
        ]),
      )

  module _ (O : IsOrder less) where
    after_true :
        (j k : Job) (ks : List Job)
        → less k j ≡ true
        → ((m : Job) → In m ks → less m k ≡ false)
        → (m : Job) → In m (insert less j ks)
        → less m k ≡ false
    after_true j k ks t h m i = elim ((In-insert m j ks).0 i) [
      | inl e ↦ subst (λ x. less x k ≡ false) (sym e) (O.asymmetric k j t)
      | inr o ↦ h m o
    ]

    after_false :
        (j k : Job) (ks : List Job)
        → less k j ≡ false
        → ((m : Job) → In m ks → less m k ≡ false)
        → (m : Job) → In m (k ∷ ks)
        → less m j ≡ false
    after_false j k ks f h m (inl e) = subst (λ x. less x j ≡ false) (sym e) f
    after_false j k ks f h m (inr o) = O.ranked m k j (h m o) f

    placed :
        (b : Bool) (j k : Job) (ks : List Job)
        → less k j ≡ b
        → Ordered less (k ∷ ks)
        → Ordered less (insert less j ks)
        → Ordered less (if b then k ∷ insert less j ks else j ∷ k ∷ ks)
    placed true j k ks e (h, o) ih = (after_true j k ks e h, ih)
    placed false j k ks e (h, o) ih = (after_false j k ks e h, (h, o))

    insert-Ordered : (j : Job) (ks : List Job) → Ordered less ks → Ordered less (insert less j ks)
    unfolding insert
    insert-Ordered j [] o = ((λ m i. absurd i), tt)
    insert-Ordered j (k ∷ ks) (h, o) = placed (less k j) j k ks refl (h, o) (insert-Ordered j ks o)

    sort-Ordered : (js : List Job) → Ordered less (sort less js)
    unfolding sort
    sort-Ordered [] = tt
    sort-Ordered (j ∷ js) = insert-Ordered j (sort less js) (sort-Ordered js)

sort-Sorts : Sorts sort
sort-Sorts = record { kept = In-sort; ordered = λ less jobs O. sort-Ordered less O jobs }

abbrev files : List DirEntry
files =
    record { name = "notes.txt"; is_dir = false }
    ∷ record { name = "old.json"; is_dir = true }
    ∷ record { name = "job-1.json"; is_dir = false }
    ∷ []

list_jobs-Found_example :
    (jobs : List Job) × (list_jobs H sort "data" start.disk (listed files) ≡ ok jobs)
    × NewestFirst jobs
    × ((j : Job) → In j jobs ↔ ((e : DirEntry) × In e files × Holds H sort "data" start.disk j e))
list_jobs-Found_example = list_jobs-Found H sort "data" start.disk files sort-Sorts

shown : In (record { name = brief_job.id <> ".json"; is_dir = false }) files
unfolding new_job
shown = inr (inr (inl refl))

list_jobs-save_example :
    (jobs : List Job) × (list_jobs H sort "data"
        (save H brief_job "data" start.disk).1
        (listed files)
      ≡ ok jobs)
    × NewestFirst jobs
    × In brief_job jobs
list_jobs-save_example =
    list_jobs-save H lawful (host-ReadsBack (some "context canceled")) sort sort-Sorts "data"
      brief_job start.disk files (lasting brief_job.id) saved shown
