-- ===== src/Os/Replace.antt =====
-- What a replacement of a file leaves in the target and in every other file.
use tcl_script_runner.Prelude.{
  String, true, false, none, some, ◌≡◌, ◌≢◌, refl, ◌∙◌, ap, Option-cases, inl, inr,
}
use tcl_script_runner.Outcome.{Outcome, ok, Outcome-cases}
use tcl_script_runner.Os.{
  Os, IsLawful, content, Prefixes, discard, rename_step, close_step, write_step, replace_file,
}

-- What a file holds after a replacement: the new text if it is the target and the call succeeded,
-- and otherwise what it held.
abbrev pub Replaced : (O : Os) → String → String → Outcome (Unit {0}) × O.State → O.State → Type 0
Replaced O target text (r, t) s =
    ((name : String) → O.is_temp name ≡ false → target ≢ name → content O name t ≡ content O name s)
    × (r ≡ ok tt → content O target t ≡ some text)
    × (r ≢ ok tt → content O target t ≡ content O target s)

module _ (O : Os) (L : IsLawful O) (p : Prefixes) (tmp target text : String) where
  apart : O.is_temp tmp ≡ true → (name : String) → O.is_temp name ≡ false → tmp ≢ name
  apart h name k e = cc (h, k, ap O.is_temp e)

  module _ (h : O.is_temp tmp ≡ true) (k : O.is_temp target ≡ false) where
    discard-Replaced :
        (message : String) (s : O.State) → Replaced O target text (discard O p message tmp s) s
    unfolding discard
    discard-Replaced message s = (
      λ name m ne. L.remove-frame tmp name s (apart h name m),
      λ e. cc e,
      λ e. L.remove-frame tmp target s (apart h target k),
    )

    -- A step that no file but the temporary one shows goes before.
    after :
        (r : Outcome (Unit {0}) × O.State) (t s : O.State)
        → ((name : String) → O.is_temp name ≡ false → content O name t ≡ content O name s)
        → Replaced O target text r t
        → Replaced O target text r s
    after r t s frame (others, done, failed) =
        (λ name m ne. others name m ne ∙ frame name m, done, λ e. failed e ∙ frame target k)

    rename_step-Replaced :
        (s : O.State)
        → content O tmp s ≡ some text
        → Replaced O target text (rename_step O p tmp target s) s
    unfolding rename_step
    rename_step-Replaced s written = elim (Option-cases (O.rename tmp target s).0) [
      | inl e ↦
          rw (e, rename_step)
            (
              λ name m ne. L.rename-frame tmp target name s (apart h name m) ne,
              λ _. L.rename_done tmp target s e ∙ written,
              λ ne. absurd (ne refl),
            )
      | inr (message, e) ↦
          rw (e, rename_step)
            (after (discard O p _ tmp (O.rename tmp target s).1) (O.rename tmp target s).1 s
              (λ name m. L.rename_failed tmp target name s e)
              (discard-Replaced _ (O.rename tmp target s).1))
    ]

    close_step-Replaced :
        (s : O.State)
        → content O tmp s ≡ some text
        → Replaced O target text (close_step O p tmp target s) s
    unfolding close_step
    close_step-Replaced s written =
        let t = (O.close tmp s).1 in
        let frame = λ (name : String) (_ : O.is_temp name ≡ false). L.close-frame tmp name s in
        elim (Option-cases (O.close tmp s).0) [
          | inl e ↦
              rw (e, close_step)
                (after (rename_step O p tmp target t) t s frame
                  (rename_step-Replaced t (L.close-frame tmp tmp s ∙ written)))
          | inr (message, e) ↦
              rw (e, close_step) (after (discard O p _ tmp t) t s frame (discard-Replaced _ t))
        ]

    write_step-Replaced :
        (s : O.State)
        → ((O.write tmp text s).0 ≡ none → content O tmp (O.write tmp text s).1 ≡ some text)
        → Replaced O target text (write_step O p tmp text target s) s
    unfolding write_step
    write_step-Replaced s written =
        let t = (O.write tmp text s).1 in
        let frame = λ (name : String) (m : O.is_temp name ≡ false).
          L.write-frame tmp text name s (apart h name m) in
        elim (Option-cases (O.write tmp text s).0) [
          | inl e ↦
              rw (e, write_step)
                (after (close_step O p tmp target t) t s frame (close_step-Replaced t (written e)))
          | inr (message, e) ↦
              rw (e, write_step)
                (after (discard O p _ tmp (O.close tmp t).1) (O.close tmp t).1 s
                  (λ name m. L.close-frame tmp name t ∙ frame name m)
                  (discard-Replaced _ (O.close tmp t).1))
        ]

module _ (O : Os) (L : IsLawful O) (p : Prefixes) where
  -- On a lawful file system, for a target that is no temporary name, whatever calls fail: the
  -- target holds the new text if the replacement succeeded and what it held before if not, and
  -- every other name that is not temporary holds what it held.
  pub replace_file-Replaced :
      (dir pattern text target : String) (s : O.State)
      → O.is_temp target ≡ false
      → Replaced O target text (replace_file O p dir pattern text target s) s
  unfolding replace_file
  replace_file-Replaced dir pattern text target s k =
      let t = (O.create_temp dir pattern s).1 in
      let frame =
        λ (name : String) (m : O.is_temp name ≡ false). L.create_temp-frame dir pattern name s m in
      elim (Outcome-cases (O.create_temp dir pattern s).0) [
        | inl (tmp, e) ↦
            let h = L.create_temp-is_temp dir pattern s e in
            rw (e, replace_file)
              (after O L p tmp target text h k (write_step O p tmp text target t) t s frame (
                write_step-Replaced O L p tmp target text h k t
                  (L.write_done tmp text dir pattern s e)))
        | inr (inl (message, e)) ↦
            rw (e, replace_file) (λ name m ne. frame name m, λ f. cc f, λ ne. frame target k)
        | inr (inr e) ↦
            rw (e, replace_file) (λ name m ne. frame name m, λ f. cc f, λ ne. frame target k)
      ]
