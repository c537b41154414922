-- ===== src/Os/Memory.antt =====
-- A file system in memory whose calls fail as a list says, one entry for each call.
use text.Mathlib.Text.{starts_with}
use text.Mathlib.TextPositions.{starts_with-append}
use mathlib.Core.Path.{ap, subst}
use tcl_script_runner.Prelude.{
  String, ◌<>◌, ◌==◌, eq_iff, true, false, Option, none, some, List, [], ◌∷◌, ◌≡◌, ◌≢◌, arith,
  if◌then◌else◌,
}
use tcl_script_runner.Outcome.{Outcome, ok, err, hang}
use tcl_script_runner.Os.{Os, Error, Read, contents, missing, failed, IsLawful}

pub record Disk : Type 0 where
  pub file : String → Option String
  pub faults : List Error

fault : List Error → Error
fault [] = none
fault (e ∷ es) = e

rest : List Error → List Error
rest [] = []
rest (e ∷ es) = es

put : (String → Option String) → String → Option String → String → Option String
put file name text other = if name == other then text else file other

-- A call: what it does to the files if it succeeds, and if it fails.
call : Disk → (String → Option String) → (String → Option String) → Error × Disk
unfolding fault rest
call s done undone = elim (fault s.faults) [
  | none ↦ (none, record { file = done; faults = rest s.faults })
  | some e ↦ (some e, record { file = undone; faults = rest s.faults })
]

create : String → Disk → Outcome String × Disk
unfolding fault rest put
create tmp s = elim (fault s.faults) [
  | none ↦ (ok tmp, record { file = put s.file tmp (some ""); faults = rest s.faults })
  | some e ↦ (err e, record { file = s.file; faults = rest s.faults })
]

read : Option String → Read
read none = missing
read (some text) = contents text

unfoldable pub memory : Os
unfolding call create read put
memory = record {
  State = Disk;
  mkdir_all = λ dir s. call s s.file s.file;
  create_temp = λ dir pattern s. create ("tmp:" <> pattern) s;
  write = λ tmp text s. call s (put s.file tmp (some text)) (put s.file tmp (some ""));
  close = λ tmp s. call s s.file s.file;
  rename = λ tmp target s. call s (put (put s.file tmp none) target (s.file tmp)) s.file;
  remove = λ tmp s. call s (put s.file tmp none) s.file;
  read_file = λ name s. read (s.file name);
  abs = λ path. ok path;
  dir = λ path. path;
  join = λ a b. a <> "/" <> b;
  not_exist = λ path. "file does not exist";
  is_temp = λ name. starts_with name "tmp:";
}

abbrev read_back : Read → Option String
read_back (contents text) = some text
read_back missing = none
read_back (failed e) = none

created : (tmp : String) (s : Disk) {made : String} → (create tmp s).0 ≡ ok made → tmp ≡ made
unfolding create
created tmp s e = ground arith

temporary : (pattern : String) → starts_with ("tmp:" <> pattern) "tmp:" ≡ true
temporary pattern = starts_with-append "tmp:" pattern

not_temporary :
    (pattern name : String) → starts_with name "tmp:" ≡ false → ("tmp:" <> pattern) ≢ name
not_temporary pattern name h e = cc (h, ap (λ n. starts_with n "tmp:") e, temporary pattern)

read-create :
    (tmp name : String) (s : Disk)
    → tmp ≢ name
    → read ((create tmp s).1.file name) ≡ read (s.file name)
unfolding create
read-create tmp name s ne = ground (arith, eq_iff tmp name)

pub memory-IsLawful : IsLawful memory
unfolding memory
memory-IsLawful = record {
  mkdir_all-frame = λ dir name s. ground arith;
  create_temp-is_temp = λ dir pattern s e.
      subst (λ n. starts_with n "tmp:" ≡ true) (created ("tmp:" <> pattern) s e)
        (temporary pattern);
  create_temp-frame = λ dir pattern name s h.
      ap read_back (read-create ("tmp:" <> pattern) name s (not_temporary pattern name h));
  write-frame = λ tmp text name s ne. ground (arith, eq_iff tmp name);
  write_done = λ tmp text dir pattern s e f. ground (arith, eq_iff tmp tmp);
  close-frame = λ tmp name s. ground arith;
  rename_failed = λ tmp target name s e. ground arith;
  rename_done = λ tmp target s e. ground (arith, eq_iff target target);
  rename-frame = λ tmp target name s ne nf. ground (arith, eq_iff tmp name, eq_iff target name);
  remove-frame = λ tmp name s ne. ground (arith, eq_iff tmp name);
}

pub create_temp_returns :
    (dir pattern : String) (s : memory.State) → (memory.create_temp dir pattern s).0 ≢ hang
unfolding memory create
create_temp_returns dir pattern s h = ground arith
