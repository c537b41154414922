-- ===== src/Web/View/Snippets.antt =====
-- internal/web/handlers.go: how long a `snippet` is.
use mathlib.Core.Path.{subst}
use Prim.Native.Nat.{◌≤◌}
use tcl_script_runner.Prelude.{
  ℕ, zero, suc, String, List, [], ◌∷◌, ◌++◌, length, take, ◌≡◌, refl, ap, arith, leb, length-append,
  take-append, Bool-cases, inl, inr,
}
use tcl_script_runner.Prelude.Utf8.{Bytes, to_bytes}
use tcl_script_runner.Web.View.{snippet}

length-take : {A : Type 0} (n : ℕ) (xs : List A) → n ≤ length xs → length (take n xs) ≡ n
length-take zero xs h = refl
length-take (suc n) [] h = elim h [ ]
length-take (suc n) (x ∷ xs) h = ap suc (length-take n xs (omega (arith, h)))

-- A prefix of 120 bytes, before something of three bytes.
abbrev Cut : Bytes → Bytes → Type 0
Cut bytes cut = (length cut ≤ 123) × (take 120 cut ≡ take 120 bytes)

cut :
    (bytes mark : Bytes) → length mark ≡ 3 → 120 ≤ length bytes → Cut bytes (take 120 bytes ++ mark)
cut bytes mark m h =
    let n : length (take 120 bytes) ≡ 120 = length-take 120 bytes h in
    (
      omega (arith, length-append (take 120 bytes) mark, n, m),
      subst (λ k. take k (take 120 bytes ++ mark) ≡ take 120 bytes) n
          (take-append (take 120 bytes) mark),
    )

-- A snippet has at most 123 bytes, and its first 120 bytes are those of its text.
pub snippet-Cut :
    (s : String) → (length (snippet s) ≤ 123) × (take 120 (snippet s) ≡ take 120 (to_bytes s))
unfolding snippet
snippet-Cut s = elim (Bool-cases (leb (length (to_bytes s)) 120)) [
  | inl e ↦ rw e (ground (arith, e), refl)
  | inr e ↦ rw e (cut (to_bytes s) (to_bytes "…") (unfold to_bytes in refl) (ground (arith, e)))
]
