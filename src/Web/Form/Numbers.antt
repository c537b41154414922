-- ===== src/Web/Form/Numbers.antt =====
-- internal/web/handlers.go: `intField` on the numbers that the forms show.
use Prim.Native.Char.{code}
use Prim.Native.Nat.{◌≤◌, ◌<◌, ◌/◌, ◌%◌}
use Prim.Native.String.append
use tcl_script_runner.Prelude.{
  ℕ, zero, suc, ◌+◌, ◌-◌, ◌*◌, String, ◌<>◌, Bool, true, false, ◌&&◌, Option, none, some, ◌≡◌, ◌≢◌,
  refl, ap, ◌∙◌, arith, leb, ltb, eqb, if◌then◌else◌, Bool-cases, inl, inr, ltb→lt,
}
use tcl_script_runner.Prelude.Int.{ℤ, pos, negsuc, show_ℤ}
use tcl_script_runner.Prelude.Text.{show_ℕ, show_digits, digit, nth}
use tcl_script_runner.Web.Form.{
  Form, form_value, digits_from, magnitude, negative, atoi, or_default, int_field, max_int,
}

-- The values of an `int` of 64 bits.
abbrev pub InRange : ℤ → Type 0
InRange (pos n) = n ≤ max_int
InRange (negsuc n) = n ≤ max_int

abbrev then_digits : Option ℕ → String → Option ℕ
then_digits none t = none
then_digits (some a) t = digits_from a t

if_digit :
    (b : Bool) (o : Option ℕ) (t : String)
    → (if b then then_digits o t else none) ≡ then_digits (if b then o else none) t
if_digit true o t = refl
if_digit false o t = refl

digits_from-append :
    (acc : ℕ) (s t : String) → digits_from acc (s <> t) ≡ then_digits (digits_from acc s) t
unfolding digits_from
digits_from-append acc String.[] t = rw (append.nil t)
digits_from-append acc (String.◌∷◌ c s) t =
    rw (append.cons c s t, digits_from-append (acc * 10 + (code c - b'0')) s t)
      (if_digit (leb b'0' (code c) && leb (code c) b'9')
        (digits_from (acc * 10 + (code c - b'0')) s) t)

digits_from-digit : (acc d : ℕ) → d < 10 → digits_from acc (digit d) ≡ some (acc * 10 + d)
unfolding digits_from digit nth
digits_from-digit acc zero h = refl
digits_from-digit acc (suc zero) h = refl
digits_from-digit acc (suc (suc zero)) h = refl
digits_from-digit acc (suc (suc (suc zero))) h = refl
digits_from-digit acc (suc (suc (suc (suc zero)))) h = refl
digits_from-digit acc (suc (suc (suc (suc (suc zero))))) h = refl
digits_from-digit acc (suc (suc (suc (suc (suc (suc zero)))))) h = refl
digits_from-digit acc (suc (suc (suc (suc (suc (suc (suc zero))))))) h = refl
digits_from-digit acc (suc (suc (suc (suc (suc (suc (suc (suc zero)))))))) h = refl
digits_from-digit acc (suc (suc (suc (suc (suc (suc (suc (suc (suc zero))))))))) h = refl
digits_from-digit acc (suc (suc (suc (suc (suc (suc (suc (suc (suc (suc d)))))))))) h =
    absurd (omega (arith, h))

digits_from-show_digits : (fuel n : ℕ) → n < fuel → digits_from 0 (show_digits fuel n) ≡ some n
unfolding show_digits
digits_from-show_digits zero n h = elim h [ ]
digits_from-show_digits (suc fuel) n h = elim (Bool-cases (ltb n 10)) [
  | inl e ↦ rw e (digits_from-digit 0 n (ltb→lt n 10 e) ∙ ap some (omega arith))
  | inr e ↦
      let more : n / 10 < fuel = ground (arith, h, e) in
      rw
        (
          e,
          digits_from-append 0 (show_digits fuel (n / 10)) (digit (n % 10)),
          digits_from-show_digits fuel (n / 10) more,
        )
        (digits_from-digit (n / 10) (n % 10) (omega arith) ∙ ap some (omega arith))
]

-- A text whose digits make a positive number begins with a digit.
magnitude-digits :
    (s : String) (n : ℕ) → digits_from 0 s ≡ some (suc n) → magnitude s ≡ some (suc n)
unfolding magnitude digits_from
magnitude-digits String.[] n h = cc h
magnitude-digits (String.◌∷◌ c s) n h = h

le→leb : (a b : ℕ) → a ≤ b → leb a b ≡ true
le→leb a b h = ground arith

first_digit :
    (c n : ℕ) (o : Option ℕ)
    → (if leb b'0' c && leb c b'9' then o else none) ≡ some n
    → (eqb c b'-' ≡ false) × (eqb c b'+' ≡ false)
first_digit c n o h = ground (arith, h)

atoi-digits :
    (s : String) (n : ℕ)
    → digits_from 0 s ≡ some (suc n)
    → suc n ≤ max_int
    → atoi s ≡ some (pos (suc n))
unfolding atoi digits_from
atoi-digits String.[] n h b = cc h
atoi-digits (String.◌∷◌ c s) n h b =
    let (minus, plus) = first_digit (code c) (suc n) _ h in
    rw (minus, plus, magnitude-digits (String.◌∷◌ c s) n h, le→leb (suc n) max_int b) refl

digits_from-show_ℕ : (n : ℕ) → digits_from 0 (show_ℕ n) ≡ some n
unfolding show_ℕ
digits_from-show_ℕ n = digits_from-show_digits (suc n) n (omega arith)

atoi-minus : (t : String) → atoi ("-" <> t) ≡ negative (magnitude t)
unfolding atoi
atoi-minus t = rw (append.cons "-" "" t, append.nil t) refl

negative-suc : (n : ℕ) → n ≤ max_int → negative (some (suc n)) ≡ some (negsuc n)
unfolding negative
negative-suc n b = rw (le→leb n max_int b) refl

atoi-show_ℤ : (v : ℤ) → InRange v → v ≢ pos 0 → atoi (show_ℤ v) ≡ some v
unfolding show_ℤ
atoi-show_ℤ (pos zero) b z = absurd (z refl)
atoi-show_ℤ (pos (suc n)) b z = atoi-digits (show_ℕ (suc n)) n (digits_from-show_ℕ (suc n)) b
atoi-show_ℤ (negsuc n) b z =
    atoi-minus (show_ℕ (suc n))
    ∙ ap negative (magnitude-digits (show_ℕ (suc n)) n (digits_from-show_ℕ (suc n)))
    ∙ negative-suc n b

or_default-show : (def v : ℤ) → v ≢ pos 0 → or_default def (some v) ≡ v
unfolding or_default
or_default-show def (pos zero) z = absurd (z refl)
or_default-show def (pos (suc n)) z = refl
or_default-show def (negsuc n) z = refl

-- A field that holds a number as the forms print it gives that number, if it is not 0 and fits
-- into 64 bits.
pub int_field-show_ℤ :
    (name : String) (def v : ℤ) (form : Form)
    → form_value name form ≡ show_ℤ v
    → InRange v
    → v ≢ pos 0
    → int_field name def form ≡ v
unfolding int_field
int_field-show_ℤ name def v form e b z = rw (e, atoi-show_ℤ v b z) (or_default-show def v z)
