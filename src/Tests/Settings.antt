-- ===== src/Tests/Settings.antt =====
-- The configuration, its ciphers and its file.
use tcl_script_runner.Prelude.{
  String, ◌==◌, false, none, some, [], ◌∷◌, ◌≡◌, ◌≢◌, ◌↔◌, ◌≤◌, length, take, drop, refl,
  if◌then◌else◌,
}
use tcl_script_runner.Prelude.Int.{pos}
use tcl_script_runner.Prelude.Utf8.{Bytes, of_bytes}
use tcl_script_runner.Prelude.Base64.{decode}
use tcl_script_runner.Outcome.{ok}
use tcl_script_runner.Os.{Prefixes, replace_file}
use tcl_script_runner.Os.Replace.{Replaced, replace_file-Replaced}
use tcl_script_runner.Os.Memory.{memory, memory-IsLawful}
use tcl_script_runner.Config.{Config, Environment, new_environment, default_config}
use tcl_script_runner.Config.Crud.{find_by_name, add, update, remove}
use tcl_script_runner.Config.Crud.Lookup.{NamesDiffer, lookup, get}
use tcl_script_runner.Config.Crud.Dictionary.{add-Added, lookup-remove, lookup-update, update-eq-ok}
use tcl_script_runner.Config.Crud.Unique.{
  added, updated, removed, perform_all, perform_all-NamesDiffer,
}
use tcl_script_runner.Config.Crypto.{encrypt, decrypt, new_gcm}
use tcl_script_runner.Config.Crypto.Laws.{decrypt-encrypt, decrypt_sound}
use tcl_script_runner.Config.Files.{load, save, save_text}
use tcl_script_runner.Config.Files.RoundTrip.{Saved, save-Saved, load-save}
use tcl_script_runner.Tests.World.{
  ciphers, ciphers-IsLawful, yaml, yaml-IsFaithful, zeros, zeros-AreBytes,
}

abbrev named : String → Environment
named name = record new_environment { name = name }

abbrev cfg : Config
cfg = record default_config { environments = named "a" ∷ named "b" ∷ []; path = "config.yaml" }

differ : NamesDiffer cfg.environments
unfolding default_config new_environment get
differ = (refl, (refl, tt))

perform_all-NamesDiffer_example :
    NamesDiffer
      (perform_all cfg
        (added (named "c") ∷ updated "a" (named "b") ∷ removed "b" ∷ [])).environments
perform_all-NamesDiffer_example =
    perform_all-NamesDiffer cfg (added (named "c") ∷ updated "a" (named "b") ∷ removed "b" ∷ [])
      differ

renamed : (update cfg "a" (named "c")).0 ≡ ok tt
unfolding default_config new_environment find_by_name update
renamed = refl

lookup-update_example : lookup (update cfg "a" (named "c")).1 "c" ≡ (
    if (named "c").name == "c"
    then some (named "c")
    else if "a" == "c"
    then none
    else lookup cfg "c")
lookup-update_example = lookup-update cfg "a" (named "c") "c" differ renamed

update-eq-ok_example :
    ((update cfg "a" (named "b")).0 ≡ ok tt)
    ↔ ((lookup cfg "a" ≢ none) × ((named "b").name ≢ "a" → lookup cfg (named "b").name ≡ none))
update-eq-ok_example = update-eq-ok cfg "a" (named "b")

add-Added_example :
    (((add cfg (named "c")).0 ≡ ok tt) ↔ (lookup cfg (named "c").name ≡ none))
    × ((add cfg (named "c")).0 ≢ ok tt → (add cfg (named "c")).1 ≡ cfg)
    × ((add cfg (named "c")).0 ≡ ok tt
        → (m : String)
        → lookup (add cfg (named "c")).1 m
          ≡ (if (named "c").name == m then some (named "c") else lookup cfg m))
add-Added_example = add-Added cfg (named "c")

lookup-remove_example :
    lookup (remove cfg "a").1 "b" ≡ (if "a" == "b" then none else lookup cfg "b")
lookup-remove_example = lookup-remove cfg "a" "b" differ

abbrev disk : memory.State
unfolding memory
disk = record { file = λ name. if name == "config.yaml" then some "old" else none; faults = [] }

abbrev numbers : Config
numbers = record default_config { default_timeout_seconds = pos 0; path = "config.yaml" }

not_temporary : memory.is_temp "config.yaml" ≡ false
unfolding memory
not_temporary = refl

absolute : memory.abs "config.yaml" ≡ ok "config.yaml"
unfolding memory
absolute = refl

save-Saved_example : Saved memory yaml numbers (save memory yaml numbers disk) disk
save-Saved_example = save-Saved memory memory-IsLawful yaml numbers disk not_temporary

wrote : (save memory yaml numbers disk).0 ≡ ok tt
unfolding memory yaml save save_text default_config replace_file
wrote = refl

load-save_example : load memory yaml "config.yaml" (save memory yaml numbers disk).1 ≡ ok numbers
load-save_example =
    load-save memory memory-IsLawful yaml numbers disk yaml-IsFaithful not_temporary absolute wrote

abbrev prefixes : Prefixes
prefixes = record {
  creating = "create: ";
  writing = "write: ";
  closing = "close: ";
  renaming = "rename: ";
}

-- The third call, which closes the temporary file, fails.
abbrev faulty : memory.State
unfolding memory
faulty = record { file = disk.file; faults = none ∷ none ∷ some "disk full" ∷ [] }

replace_file-Replaced_example :
    Replaced memory "config.yaml" "new"
      (replace_file memory prefixes "." "*.tmp" "new" "config.yaml" faulty)
      faulty
replace_file-Replaced_example =
    replace_file-Replaced memory memory-IsLawful prefixes "." "*.tmp" "new" "config.yaml" faulty
      not_temporary

decrypt-encrypt_example :
    (encoded : String) × (encrypt ciphers (ok (zeros 16)) (ok (zeros 12)) "secret" "pw"
      ≡ ok encoded)
    × (decrypt ciphers encoded "pw" ≡ ok "secret")
decrypt-encrypt_example =
    decrypt-encrypt ciphers ciphers-IsLawful (zeros 16) (zeros 12) "secret" "pw" refl refl
      (zeros-AreBytes 16) (zeros-AreBytes 12)

abbrev boxed :
    (encoded : String) × (encrypt ciphers (ok (zeros 16)) (ok (zeros 12)) "secret" "pw"
      ≡ ok encoded)
    × (decrypt ciphers encoded "pw" ≡ ok "secret")
boxed =
    decrypt-encrypt ciphers ciphers-IsLawful (zeros 16) (zeros 12) "secret" "pw" refl refl
      (zeros-AreBytes 16) (zeros-AreBytes 12)

decrypt_sound_example :
    (blob : Bytes) × (gcm : ciphers.Aead) × (pt : Bytes) × (decode boxed.0 ≡ some blob)
    × (44 ≤ length blob)
    × (new_gcm ciphers "pw" (take 16 blob) ≡ ok gcm)
    × (ciphers.open_ gcm (take 12 (drop 16 blob)) (drop 28 blob) ≡ some pt)
    × (of_bytes pt ≡ "secret")
decrypt_sound_example = decrypt_sound ciphers ciphers-IsLawful boxed.0 "pw" "secret" boxed.2
