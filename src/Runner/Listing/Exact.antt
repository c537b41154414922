-- ===== src/Runner/Listing/Exact.antt =====
-- job.go: which jobs `ListJobs` gives, and in which order.
use Prim.Native.String.{len, slice}
use tcl_script_runner.Prelude.{
  ◌-◌, String, ◌<>◌, ◌==◌, eq_iff, Bool, true, false, not, ◌||◌, List, [], ◌∷◌, ◌≡◌, ◌↔◌, ◌⊎◌, inl,
  inr, refl, sym, ap, arith, if◌then◌else◌,
}
use mathlib.Core.Path.{subst}
use tcl_script_runner.Outcome.{Outcome, ok, err, hang}
use tcl_script_runner.Os.{IsLawful}
use tcl_script_runner.Runner.Job.{Job}
use tcl_script_runner.Runner.Host.{Host}
use tcl_script_runner.Runner.Files.{job_path, save, load_job}
use tcl_script_runner.Runner.Files.RoundTrip.{ReadsBack, load_job-save}
use tcl_script_runner.Runner.Listing.{
  DirEntry, listed, ext, newer, is_job, id_of, keep, load_all, list_jobs,
}
use tcl_script_runner.Runner.Listing.Names.{ext-json, ext-eq-json, id_of-json}
use tcl_script_runner.Runner.Listing.Order.{
  In, NewestFirst, Sorts, newer-IsOrder, Ordered-NewestFirst,
}

module _ (H : Host) (sort : (Job → Job → Bool) → List Job → List Job) (data_dir : String)
    (s : H.os.State) where
  abbrev Loads : Job → DirEntry → Type 0
  Loads j e = (is_job H sort e ≡ true) × (load_job H data_dir (id_of H sort e) s ≡ ok j)

  abbrev Found : Job → List DirEntry → Type 0
  Found j [] = ⊥
  Found j (e ∷ es) = Loads j e ⊎ Found j es

  keep_iff :
      (j : Job) (m : Outcome Job) (rest : List Job)
      → In j (keep H sort m rest) ↔ ((m ≡ ok j) ⊎ In j rest)
  keep_iff j (ok k) rest = (
    λ h. elim h [ inl e ↦ inl (ap (λ x. ok x) (sym e)) | inr i ↦ inr i ],
    λ h. elim h [ inl e ↦ inl (cc e) | inr i ↦ inr i ],
  )
  keep_iff j (err e) rest = (λ i. inr i, λ h. elim h [ inl e ↦ cc e | inr i ↦ i ])
  keep_iff j hang rest = (λ i. inr i, λ h. elim h [ inl e ↦ cc e | inr i ↦ i ])

  by_kind :
      (b : Bool) (j : Job) (m : Outcome Job) (rest : List Job) (P : Type 0)
      → (In j rest ↔ P)
      → In j (if b then keep H sort m rest else rest) ↔ (((b ≡ true) × (m ≡ ok j)) ⊎ P)
  by_kind true j m rest P ih = (
    λ i. elim ((keep_iff j m rest).0 i) [ inl e ↦ inl (refl, e) | inr r ↦ inr (ih.0 r) ],
    λ f. elim f [
      | inl l ↦ (keep_iff j m rest).1 (inl l.1)
      | inr r ↦ (keep_iff j m rest).1 (inr (ih.1 r))
    ],
  )
  by_kind false j m rest P ih =
      (λ i. inr (ih.0 i), λ f. elim f [ inl l ↦ cc (l.0) | inr r ↦ ih.1 r ])

  load_all_iff : (j : Job) (es : List DirEntry) → In j (load_all H sort data_dir s es) ↔ Found j es
  unfolding load_all
  load_all_iff j [] = (λ i. i, λ i. i)
  load_all_iff j (e ∷ es) =
      by_kind (is_job H sort e) j (load_job H data_dir (id_of H sort e) s)
        (load_all H sort data_dir s es) (Found j es) (load_all_iff j es)

  -- A file with the name of a job that reads as that job.
  abbrev pub Holds : Job → DirEntry → Type 0
  Holds j e =
      (e.is_dir ≡ false)
      × (id : String) × (e.name ≡ id <> ".json")
      × (load_job H data_dir id s ≡ ok j)

  a_file :
      (is_dir : Bool) (x : String)
      → not (is_dir || not (x == ".json")) ≡ true
      → (is_dir ≡ false) × (x ≡ ".json")
  a_file is_dir x h = ground (arith, eq_iff x ".json")

  of_name : (name id : String) → name ≡ id <> ".json" → slice name 0 (len name - len ".json") ≡ id
  of_name name id e = rw e (id_of-json id)

  Loads-Holds : (j : Job) (e : DirEntry) → Loads j e ↔ Holds j e
  unfolding is_job id_of
  Loads-Holds j e = (
    λ l.
        let (file, x) = a_file e.is_dir (ext e.name) l.0 in
        let (id, named) = ext-eq-json e.name x in
        (
          file,
          id,
          named,
          subst (λ i. load_job H data_dir i s ≡ ok j) (of_name e.name id named) l.1,
        ),
    λ h.
        let (file, id, named, loaded) = h in
        (
          rw (file, named, ext-json id),
          subst (λ i. load_job H data_dir i s ≡ ok j) (sym (of_name e.name id named)) loaded,
        ),
  )

  Found-In : (j : Job) (es : List DirEntry) → Found j es ↔ ((e : DirEntry) × In e es × Loads j e)
  Found-In j [] = (λ i. absurd i, λ h. absurd (h.1))
  Found-In j (e ∷ es) = (
    λ f. elim f [
      | inl l ↦ (e, inl refl, l)
      | inr g ↦ let (d, i, l) = (Found-In j es).0 g in (d, inr i, l)
    ],
    λ h.
        let (d, i, l) = h in
        elim i [
          | inl x ↦ inl (subst (λ y. Loads j y) x l)
          | inr k ↦ inr ((Found-In j es).1 (d, k, l))
        ],
  )

  In-load_all :
      (j : Job) (es : List DirEntry)
      → In j (load_all H sort data_dir s es) ↔ ((e : DirEntry) × In e es × Holds j e)
  In-load_all j es = (
    λ m.
        let (e, i, l) = (Found-In j es).0 ((load_all_iff j es).0 m) in
        (e, i, (Loads-Holds j e).0 l),
    λ h.
        let (e, i, l) = h in
        (load_all_iff j es).1 ((Found-In j es).1 (e, i, (Loads-Holds j e).1 l)),
  )

  -- With a sort that sorts by any strict weak order, of a directory that can be read, ListJobs
  -- gives exactly the jobs j such that some entry is no directory, has the name of some ID with
  -- .json after it, and LoadJob of that ID gives j; and none was started later than one before
  -- it.
  pub list_jobs-Found :
      (es : List DirEntry)
      → Sorts sort
      → (jobs : List Job) × (list_jobs H sort data_dir s (listed es) ≡ ok jobs)
        × NewestFirst jobs
        × ((j : Job) → In j jobs ↔ ((e : DirEntry) × In e es × Holds j e))
  unfolding list_jobs
  list_jobs-Found es S =
      let all = load_all H sort data_dir s es in
      (
        sort newer all,
        refl,
        Ordered-NewestFirst (sort newer all) (S.ordered newer all newer-IsOrder),
        λ j. (
          λ i. (In-load_all j es).0 ((S.kept newer j all).0 i),
          λ f. (S.kept newer j all).1 ((In-load_all j es).1 f),
        ),
      )

module _ (H : Host) (L : IsLawful H.os) (F : ReadsBack H)
    (sort : (Job → Job → Bool) → List Job → List Job) (S : Sorts sort) (data_dir : String) where
  -- On a lawful file system, for a path that is no temporary name, with JSON that reads back
  -- what it writes and a sort that sorts by any strict weak order: after a Save that succeeds,
  -- ListJobs of a directory that shows the job's file gives that job among its jobs, and none
  -- was started later than one before it.
  pub list_jobs-save :
      (j : Job) (s : H.os.State) (es : List DirEntry)
      → H.os.is_temp (job_path H data_dir j.id) ≡ false
      → (save H j data_dir s).0 ≡ ok tt
      → In (record { name = j.id <> ".json"; is_dir = false }) es
      → (jobs : List Job) × (list_jobs H sort data_dir (save H j data_dir s).1 (listed es)
          ≡ ok jobs)
        × NewestFirst jobs
        × In j jobs
  list_jobs-save j s es k done shown =
      let t = (save H j data_dir s).1 in
      let (jobs, e, ordered, exact) = list_jobs-Found H sort data_dir t es S in
      (
        jobs,
        e,
        ordered,
        (exact j).1 (_, shown, (refl, j.id, refl, load_job-save H L j data_dir k F s done)),
      )
