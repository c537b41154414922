-- ===== src/Runner/Listing/Names.antt =====
-- job.go: which names `ListJobs` takes for a job, and for which ID.
use Prim.Native.Char.{code}
use Prim.Native.String.append
use Prim.Native.String.{len, slice}
use text.Mathlib.TextPositions.{len-append, slice-append_left}
use tcl_script_runner.Prelude.{
  ◌-◌, String, ◌<>◌, ◌==◌, eq_iff, Bool, not, ◌&&◌, ◌≡◌, ◌⊎◌, inl, inr, refl, sym, ap, ◌∙◌, arith,
  eqb, if◌then◌else◌,
}
use tcl_script_runner.Runner.Listing.{has_separator, ext}

-- The extension of a name, from the end of the name.
kept_ext :
    (b c : Bool) (e t : String)
    → (if not (e == "") then e else if b && c then t else "") ≡ ".json"
    → (e ≡ ".json") ⊎ (t ≡ ".json")
kept_ext b c e t h = ground (arith, eq_iff e "")

pub ext-eq-json : (s : String) → ext s ≡ ".json" → (id : String) × (s ≡ id <> ".json")
unfolding ext
ext-eq-json String.[] h = cc h
ext-eq-json (String.◌∷◌ c s) h =
    elim (kept_ext (eqb (code c) b'.') (not (has_separator s)) (ext s) (String.◌∷◌ c s) h) [
      | inl e ↦
          let (id, f) = ext-eq-json s e in
          (String.◌∷◌ c id, ap (λ t. String.◌∷◌ c t) f ∙ sym (append.cons c id ".json"))
      | inr e ↦ ("", e)
    ]

-- The file that `Save` writes is one that `ListJobs` reads.
ext_later :
    (b c : Bool) (e t : String)
    → e ≡ ".json"
    → (if not (e == "") then e else if b && c then t else "") ≡ ".json"
ext_later b c e t h = rw h

pub ext-json : (id : String) → ext (id <> ".json") ≡ ".json"
unfolding ext
ext-json String.[] = refl
ext-json (String.◌∷◌ c id) = rw (append.cons c id ".json") (
    ext_later (eqb (code c) b'.') (not (has_separator (id <> ".json"))) (ext (id <> ".json"))
      (String.◌∷◌ c (id <> ".json")) (ext-json id))

pub id_of-json : (id : String) → slice (id <> ".json") 0 (len (id <> ".json") - len ".json") ≡ id
id_of-json id =
    let e : len (id <> ".json") - len ".json" ≡ len id = omega (arith, len-append id ".json") in
    rw e (slice-append_left id ".json")
