-- ===== src/Becs/Recorder/Window.antt =====
-- The recorder of apilog.go as a window over all entries since the last `Clear`.
use mathlib.Core.Path.{subst}
use tcl_script_runner.Prelude.{
  ℕ, ◌+◌, ◌-◌, ◌≤◌, ◌≡◌, sym, ◌∙◌, ap, Bool-cases, inl, inr, List, [], ◌∷◌, ◌++◌, length, drop,
  length-append, length-drop, drop-append_le, drop-drop, arith, ltb, append-nil, append_assoc,
}
use tcl_script_runner.Becs.Recorder.{LogEntry, Recorder, stamp, push, add_entry, clear}

-- The last `n` elements of a list.
abbrev pub last {ℓ} : {A : Type ℓ} → ℕ → List A → List A
last n xs = drop (length xs - n) xs

-- One call after the other, each with the time at which it is made.
pub record_all : List (ℕ × LogEntry) → Recorder → Recorder
record_all [] r = r
record_all ((now, e) ∷ es) r = record_all es (add_entry now e r)

pub stamped : List (ℕ × LogEntry) → List LogEntry
stamped [] = []
stamped ((now, e) ∷ es) = stamp now e ∷ stamped es

module _ {A : Type 0} (n : ℕ) (xs : List A) (y : A) where
  last-append : last n xs ++ y ∷ [] ≡ drop (length xs - n) (xs ++ y ∷ [])
  last-append = sym (drop-append_le (length xs - n) xs (y ∷ []) (omega arith))

  -- Only the last `n` elements matter for the last `n` after one more.
  last-last-append : last n (last n xs ++ y ∷ []) ≡ last n (xs ++ y ∷ [])
  last-last-append =
      let k = length xs - n in
      let e : k + (length (last n xs ++ y ∷ []) - n) ≡ length (xs ++ y ∷ []) - n = omega (
        arith,
        length-append (last n xs) (y ∷ []),
        length-append xs (y ∷ []),
        length-drop (length xs - n) xs,
      ) in
      ap (λ zs. drop (length (last n xs ++ y ∷ []) - n) zs) last-append
      ∙ drop-drop (length (last n xs ++ y ∷ []) - n) k (xs ++ y ∷ [])
      ∙ ap (λ m. drop m (xs ++ y ∷ [])) e

drop_zero : {A : Type 0} (n : ℕ) (xs : List A) → n ≡ 0 → drop n xs ≡ xs
drop_zero n xs e = rw e

push-last : (r : Recorder) (es : List LogEntry) → push r es ≡ record r { entries = last r.max es }
push-last r es = elim (Bool-cases (ltb r.max (length es))) [
  | inl full ↦ rw full
  | inr room ↦ rw (room, drop_zero (length es - r.max) es (ground arith))
]

regroup :
    (xs : List LogEntry) (y : LogEntry) (ys : List LogEntry) → (xs ++ y ∷ []) ++ ys ≡ xs ++ y ∷ ys
regroup xs y ys = append_assoc xs (y ∷ []) ys

max-add_entry : (now : ℕ) (e : LogEntry) (r : Recorder) → (add_entry now e r).max ≡ r.max
unfolding add_entry
max-add_entry now e r = ap (λ t. t.max) (push-last r (r.entries ++ stamp now e ∷ []))

entries-add_entry :
    (now : ℕ) (e : LogEntry) (r : Recorder)
    → (add_entry now e r).entries ≡ last r.max (r.entries ++ stamp now e ∷ [])
unfolding add_entry
entries-add_entry now e r = ap (λ t. t.entries) (push-last r (r.entries ++ stamp now e ∷ []))

kept :
    (now : ℕ) (e : LogEntry) (r : Recorder) (history : List LogEntry)
    → r.entries ≡ last r.max history
    → (add_entry now e r).entries ≡ last (add_entry now e r).max (history ++ stamp now e ∷ [])
kept now e r history h =
    rw (max-add_entry now e r, entries-add_entry now e r, h)
      (last-last-append r.max history (stamp now e))

-- A recorder that holds the last `max` entries of a history holds, after any calls of `Record`, the
-- last `max` of that history and the new entries, in order and stamped.
pub record_all-last :
    (es : List (ℕ × LogEntry)) (r : Recorder) (history : List LogEntry)
    → r.entries ≡ last r.max history
    → (record_all es r).entries ≡ last r.max (history ++ stamped es)
unfolding record_all stamped add_entry
record_all-last [] r history h = rw append-nil h
record_all-last ((now, e) ∷ es) r history h =
    let r' = add_entry now e r in
    rw (← regroup history (stamp now e) (stamped es)) (
      subst (λ m. (record_all es r').entries ≡ last m ((history ++ stamp now e ∷ []) ++ stamped es))
        (max-add_entry now e r)
        (record_all-last es r' (history ++ stamp now e ∷ []) (kept now e r history h)))

pub last_bounded : {A : Type 0} (n : ℕ) (xs : List A) → length (last n xs) ≤ n
last_bounded n xs = omega (arith, length-drop (length xs - n) xs)

-- After a Clear and any calls of Record the recorder holds exactly the last max of the new
-- entries, and so never more than max.
pub record_all-clear :
    (es : List (ℕ × LogEntry)) (r : Recorder)
    → ((record_all es (clear r)).entries ≡ last r.max (stamped es))
      × (length (record_all es (clear r)).entries ≤ r.max)
unfolding clear
record_all-clear es r =
    let e = record_all-last es (clear r) [] (sym (drop_zero (0 - r.max) [] (omega arith))) in
    (e, rw e (last_bounded r.max (stamped es)))
