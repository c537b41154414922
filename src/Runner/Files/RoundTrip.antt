-- ===== src/Runner/Files/RoundTrip.antt =====
-- job.go: `Save` and the file system, and `LoadJob` after `Save`.
use tcl_script_runner.Prelude.{
  String, false, some, ◌≡◌, ◌≢◌, refl, ◌∙◌, inl, inr, Option-cases, arith,
}
use tcl_script_runner.Outcome.{Outcome, ok, err, hang}
use tcl_script_runner.Os.{IsLawful, content}
use tcl_script_runner.Os.Replace.{Replaced, replace_file-Replaced}
use tcl_script_runner.Runner.Job.{Job}
use tcl_script_runner.Runner.Host.{Host}
use tcl_script_runner.Runner.Files.{prefixes, job_path, save_text, save, load_job}

-- What the program relies on: a job is read back from its own JSON.
pub record ReadsBack (H : Host) : Type 0 where
  pub unmarshal-marshal :
      (j : Job) {text : String} → H.marshal_job j ≡ ok text → H.unmarshal_job text ≡ ok j

module _ (H : Host) (L : IsLawful H.os) (j : Job) (data_dir : String) where
  abbrev path : String
  path = job_path H data_dir j.id

  -- What a save leaves: the whole job at its path if it succeeded, what was there if not; and no
  -- other name that is not temporary changes.
  abbrev pub SavedJob : Outcome (Unit {0}) × H.os.State → H.os.State → Type 0
  SavedJob (r, t) s =
      (r ≡ ok tt
        → (text : String) × (H.marshal_job j ≡ ok text) × (content H.os path t ≡ some text))
      × (r ≢ ok tt → content H.os path t ≡ content H.os path s)
      × ((name : String)
          → H.os.is_temp name ≡ false
          → path ≢ name
          → content H.os name t ≡ content H.os name s)

  unsaved : (m : Outcome (Unit {0})) (s : H.os.State) → m ≢ ok tt → SavedJob (m, s) s
  unsaved m s ne = (λ e. absurd (ne e), λ _. refl, λ name h k. refl)

  from_replaced :
      {text : String} (r : Outcome (Unit {0}) × H.os.State) (s : H.os.State)
      → H.marshal_job j ≡ ok text
      → Replaced H.os path text r s
      → SavedJob r s
  from_replaced {text} r s e (others, done, undone) = (λ f. (text, e, done f), undone, others)

  module _ (k : H.os.is_temp path ≡ false) where
    save_text-SavedJob :
        (m : Outcome String) (s : H.os.State)
        → H.marshal_job j ≡ m
        → SavedJob (save_text H j data_dir m s) s
    unfolding save_text
    save_text-SavedJob (ok text) s m = from_replaced _ s m (
        replace_file-Replaced H.os L (prefixes path) (H.os.join data_dir "jobs") "job-*.json.tmp"
          text path s k)
    save_text-SavedJob (err e) s m = unsaved _ s (λ f. cc f)
    save_text-SavedJob hang s m = unsaved _ s (λ f. cc f)

    -- A step before that changes no file.
    before :
        (r : Outcome (Unit {0}) × H.os.State) (t s : H.os.State)
        → ((name : String) → content H.os name t ≡ content H.os name s)
        → SavedJob r t
        → SavedJob r s
    before r t s frame (done, undone, others) =
        (done, λ ne. undone ne ∙ frame path, λ name m ne. others name m ne ∙ frame name)

    -- `Save` of a job is atomic: it writes the whole of what the job marshals to, or nothing.
    pub save-SavedJob : (s : H.os.State) → SavedJob (save H j data_dir s) s
    unfolding save
    save-SavedJob s =
        let dir = H.os.join data_dir "jobs" in
        let frame = λ (name : String). L.mkdir_all-frame dir name s in
        elim (Option-cases (H.os.mkdir_all dir s).0) [
          | inl e ↦
              rw (e, save)
                (before _ (H.os.mkdir_all dir s).1 s frame
                  (save_text-SavedJob (H.marshal_job j) (H.os.mkdir_all dir s).1 refl))
          | inr (_, e) ↦
              rw (e, save)
                (before _ (H.os.mkdir_all dir s).1 s frame
                  (unsaved _ (H.os.mkdir_all dir s).1 (λ f. cc f)))
        ]

    read_job :
        ReadsBack H
        → (t : H.os.State) {text : String} → H.marshal_job j ≡ ok text
        → content H.os path t ≡ some text
        → load_job H data_dir j.id t ≡ ok j
    unfolding load_job
    read_job F t m e = ground (arith, F.unmarshal-marshal j m)

    -- On a lawful file system, for a path that is no temporary name, and with JSON that reads
    -- back what it writes: after a Save that succeeds, LoadJob of the job's ID gives the job
    -- back.
    pub load_job-save :
        ReadsBack H
        → (s : H.os.State) → (save H j data_dir s).0 ≡ ok tt
        → load_job H data_dir j.id (save H j data_dir s).1 ≡ ok j
    load_job-save F s done =
        let (text, m, written) = (save-SavedJob s).0 done in
        read_job F (save H j data_dir s).1 m written
