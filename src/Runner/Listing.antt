-- ===== src/Runner/Listing.antt =====
-- internal/runner/job.go: `ListJobs`.
pub mod Names
pub mod Order
pub mod Exact
use Prim.Native.Char.{code}
use Prim.Native.String.{len, slice}
use tcl_script_runner.Prelude.{
  ℕ, ◌-◌, String, ◌<>◌, ◌==◌, Bool, true, false, not, ◌&&◌, ◌||◌, List, [], ◌∷◌, eqb, ltb,
  if◌then◌else◌,
}
use tcl_script_runner.Prelude.Text.{quote}
use tcl_script_runner.Outcome.{Outcome, ok, err, hang}
use tcl_script_runner.Runner.Job.{Job}
use tcl_script_runner.Runner.Host.{Host}
use tcl_script_runner.Runner.Files.{load_job}

-- `os.DirEntry`, as far as it is used.
pub record DirEntry : Type 0 where
  pub name : String
  pub is_dir : Bool

-- What `os.ReadDir` gives.
pub data Listing : Type 0 where
  listed : List DirEntry → Listing
  absent : Listing
  unreadable : String → Listing

has_separator : String → Bool
has_separator String.[] = false
has_separator (String.◌∷◌ c s) = eqb (code c) b'/' || has_separator s

-- `filepath.Ext`: from the last dot of the last element.
unfoldable pub ext : String → String
unfolding has_separator
ext String.[] = ""
ext (String.◌∷◌ c s) =
    let rest = ext s in
    if not (rest == "")
    then rest
    else if eqb (code c) b'.' && not (has_separator s)
    then String.◌∷◌ c s
    else ""

unfoldable pub newer : Job → Job → Bool
newer a b = ltb b.started_at a.started_at

module _ (H : Host) (sort : (Job → Job → Bool) → List Job → List Job) where
  pub is_job : DirEntry → Bool
  is_job e = not (e.is_dir || not (ext e.name == ".json"))

  pub id_of : DirEntry → String
  id_of e = slice e.name 0 (len e.name - len ".json")

  -- A file that does not load is skipped.
  abbrev keep : Outcome Job → List Job → List Job
  keep (ok j) jobs = j ∷ jobs
  keep (err e) jobs = jobs
  keep hang jobs = jobs

  pub load_all : String → H.os.State → List DirEntry → List Job
  load_all data_dir s [] = []
  load_all data_dir s (e ∷ es) =
      let rest = load_all data_dir s es in
      if is_job e then keep (load_job H data_dir (id_of e) s) rest else rest

  -- `listing` is what the read of the directory gave.
  unfoldable pub list_jobs : String → H.os.State → Listing → Outcome (List Job)
  list_jobs data_dir s (listed es) = ok (sort newer (load_all data_dir s es))
  list_jobs data_dir s absent = ok []
  list_jobs data_dir s (unreadable e) =
      err ("job: read dir " <> quote (H.os.join data_dir "jobs") <> ": " <> e)
