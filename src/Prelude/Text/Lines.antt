-- ===== src/Prelude/Text/Lines.antt =====
-- Texts of lines, and which texts have no line feed.
use Prim.Native.Nat.{◌/◌, ◌%◌}
use Prim.Native.Char.{Char, code}
use Prim.Native.String.append
use Prim.Native.String.{String, ◌++◌ as ◌<>◌}
use mathlib.Core.Path.{◌≡◌, refl}
use mathlib.Core.Logic.{◌≢◌}
use mathlib.Core.Bool.{Bool, true, false, not, ◌&&◌}
use mathlib.Core.List.{List, [], ◌∷◌}
use native.Mathlib.Omega.{arith}
use Prim.Native.Nat.{ℕ, zero, suc}
use tcl_script_runner.Prelude.Tests.{ltb, eqb, if◌then◌else◌}
use tcl_script_runner.Prelude.Text.{
  digit, nth, show_digits, show_ℕ, hex_byte, trim_left, trim_right, trim_space, is_space, is_empty,
  prepend, split_comma,
}

unfoldable pub IsLine : String → Type 0
IsLine String.[] = Unit
IsLine (String.◌∷◌ c s) = (code c ≢ 10) × IsLine s

abbrev pub is_line : String → Bool
is_line String.[] = true
is_line (String.◌∷◌ c s) = not (eqb (code c) 10) && is_line s

pub is_line-IsLine : (s : String) → is_line s ≡ true → IsLine s
unfolding IsLine
is_line-IsLine String.[] h = tt
is_line-IsLine (String.◌∷◌ c s) h =
    let both : (code c ≢ 10) × (is_line s ≡ true) =
      ((λ e. ground (arith, e, h)), ground (arith, h)) in
    (both.0, is_line-IsLine s both.1)

-- The lines of a text, each ended by a line feed.
unfoldable pub lines : String → List String
lines String.[] = []
lines (String.◌∷◌ c s) = let rest = lines s in if eqb (code c) 10 then "" ∷ rest else prepend c rest

unless : (n : ℕ) (a b : List String) → n ≢ 10 → (if eqb n 10 then a else b) ≡ b
unless n a b h = ground (arith, h)

pub lines-append : (s rest : String) → IsLine s → lines (s <> ("\n" <> rest)) ≡ s ∷ lines rest
unfolding IsLine lines prepend
lines-append String.[] rest h =
    rw (append.nil ("\n" <> rest), append.cons "\n" "" rest, append.nil rest) refl
lines-append (String.◌∷◌ c s) rest (n, h) =
    rw (append.cons c s ("\n" <> rest), lines-append s rest h) (unless (code c) _ _ n)

pub IsLine-append : (s t : String) → IsLine s → IsLine t → IsLine (s <> t)
unfolding IsLine
IsLine-append String.[] t h k = rw (append.nil t) k
IsLine-append (String.◌∷◌ c s) t (n, h) k = rw (append.cons c s t) (n, IsLine-append s t h k)

digit-IsLine : (n : ℕ) → IsLine (digit n)
unfolding IsLine digit nth
digit-IsLine zero = ((λ e. cc e), tt)
digit-IsLine (suc zero) = ((λ e. cc e), tt)
digit-IsLine (suc (suc zero)) = ((λ e. cc e), tt)
digit-IsLine (suc (suc (suc zero))) = ((λ e. cc e), tt)
digit-IsLine (suc (suc (suc (suc zero)))) = ((λ e. cc e), tt)
digit-IsLine (suc (suc (suc (suc (suc zero))))) = ((λ e. cc e), tt)
digit-IsLine (suc (suc (suc (suc (suc (suc zero)))))) = ((λ e. cc e), tt)
digit-IsLine (suc (suc (suc (suc (suc (suc (suc zero))))))) = ((λ e. cc e), tt)
digit-IsLine (suc (suc (suc (suc (suc (suc (suc (suc zero)))))))) = ((λ e. cc e), tt)
digit-IsLine (suc (suc (suc (suc (suc (suc (suc (suc (suc zero))))))))) = ((λ e. cc e), tt)
digit-IsLine (suc (suc (suc (suc (suc (suc (suc (suc (suc (suc zero)))))))))) = ((λ e. cc e), tt)
digit-IsLine (suc (suc (suc (suc (suc (suc (suc (suc (suc (suc (suc zero))))))))))) =
    ((λ e. cc e), tt)
digit-IsLine (suc (suc (suc (suc (suc (suc (suc (suc (suc (suc (suc (suc zero)))))))))))) =
    ((λ e. cc e), tt)
digit-IsLine (suc (suc (suc (suc (suc (suc (suc (suc (suc (suc (suc (suc (suc zero))))))))))))) =
    ((λ e. cc e), tt)
digit-IsLine
      (suc (suc (suc (suc (suc (suc (suc (suc (suc (suc (suc (suc (suc (suc zero)))))))))))))) =
    ((λ e. cc e), tt)
digit-IsLine
      (suc
        (suc (suc (suc (suc (suc (suc (suc (suc (suc (suc (suc (suc (suc (suc zero))))))))))))))) =
    ((λ e. cc e), tt)
digit-IsLine
      (suc (
        suc
          (suc (suc (suc (suc (suc (suc (suc (suc (suc (suc (suc (suc (suc (suc n)))))))))))))))) =
    tt

pub hex_byte-IsLine : (b : ℕ) → IsLine (hex_byte b)
unfolding hex_byte
hex_byte-IsLine b = IsLine-append _ _ (digit-IsLine (b / 16)) (digit-IsLine (b % 16))

if_IsLine : (b : Bool) (s t : String) → IsLine s → IsLine t → IsLine (if b then s else t)
if_IsLine true s t h k = h
if_IsLine false s t h k = k

show_digits-IsLine : (fuel n : ℕ) → IsLine (show_digits fuel n)
unfolding show_digits
show_digits-IsLine zero n = unfold IsLine in tt
show_digits-IsLine (suc fuel) n =
    if_IsLine (ltb n 10) _ _ (digit-IsLine n)
      (IsLine-append _ _ (show_digits-IsLine fuel (n / 10)) (digit-IsLine (n % 10)))

pub show_ℕ-IsLine : (n : ℕ) → IsLine (show_ℕ n)
unfolding show_ℕ
show_ℕ-IsLine n = show_digits-IsLine (suc n) n

trim_left-IsLine : (s : String) → IsLine s → IsLine (trim_left s)
unfolding trim_left
trim_left-IsLine String.[] h = h
trim_left-IsLine (String.◌∷◌ c s) h =
    if_IsLine (is_space (code c)) (trim_left s) _ (trim_left-IsLine s (unfold IsLine in h.1)) h

trim_right-IsLine : (s : String) → IsLine s → IsLine (trim_right s)
unfolding trim_right IsLine
trim_right-IsLine String.[] h = h
trim_right-IsLine (String.◌∷◌ c s) (n, h) =
    if_IsLine (is_space (code c) && is_empty (trim_right s)) "" _ tt (n, trim_right-IsLine s h)

pub trim_space-IsLine : (s : String) → IsLine s → IsLine (trim_space s)
unfolding trim_space
trim_space-IsLine s h = trim_right-IsLine (trim_left s) (trim_left-IsLine s h)

unfoldable pub AllLines : List String → Type 0
AllLines [] = Unit
AllLines (s ∷ ss) = IsLine s × AllLines ss

prepend-AllLines :
    (c : Char) (ss : List String) → code c ≢ 10 → AllLines ss → AllLines (prepend c ss)
unfolding prepend AllLines IsLine
prepend-AllLines c [] n h = ((n, tt), tt)
prepend-AllLines c (s ∷ ss) n (h, k) = ((n, h), k)

if_AllLines :
    (b : Bool) (s t : List String) → AllLines s → AllLines t → AllLines (if b then s else t)
if_AllLines true s t h k = h
if_AllLines false s t h k = k

first_empty : (ss : List String) → AllLines ss → AllLines ("" ∷ ss)
unfolding AllLines IsLine
first_empty ss h = (tt, h)

no_text : AllLines ("" ∷ [])
no_text = first_empty [] (unfold AllLines in tt)

pub split_comma-AllLines : (s : String) → IsLine s → AllLines (split_comma s)
unfolding split_comma
split_comma-AllLines String.[] h = no_text
split_comma-AllLines (String.◌∷◌ c s) h =
    let rest = split_comma-AllLines s (unfold IsLine in h.1) in
    if_AllLines (eqb (code c) b',') ("" ∷ split_comma s) (prepend c (split_comma s))
      (first_empty (split_comma s) rest)
      (prepend-AllLines c (split_comma s) (unfold IsLine in h.0) rest)
