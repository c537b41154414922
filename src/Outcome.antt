-- ===== src/Outcome.antt =====
-- How a Go function that returns `(value, error)` ends.
use tcl_script_runner.Prelude.{
  Bool, true, false, if◌then◌else◌, String, ◌<>◌, ◌≡◌, ◌≢◌, refl, ◌⊎◌, inl, inr,
}

-- `hang` is a call that has not returned when the fuel of its polling loop is used up.
pub data Outcome {ℓ} (A : Type ℓ) : Type ℓ where
  ok : A → Outcome A
  err : String → Outcome A
  hang : Outcome A

infixl 5 ◌>>=◌ ◌>>◌
-- `if err != nil { return …, err }`
abbrev pub ◌>>=◌ {ℓ κ} : {A : Type ℓ} {B : Type κ} → Outcome A → (A → Outcome B) → Outcome B
ok a >>= f = f a
err e >>= f = err e
hang >>= f = hang

abbrev pub ◌>>◌ {ℓ κ} : {A : Type ℓ} {B : Type κ} → Outcome A → Outcome B → Outcome B
m >> n = m >>= λ _. n

-- `fmt.Errorf(prefix + "%w", err)`
abbrev pub wrap {ℓ} : {A : Type ℓ} → String → Outcome A → Outcome A
wrap prefix (ok a) = ok a
wrap prefix (err e) = err (prefix <> e)
wrap prefix hang = hang

-- What a successful call was made of.
pub >>=-eq-ok {ℓ κ} :
    {A : Type ℓ} {B : Type κ} (first : Outcome A) (next : A → Outcome B) {result : B}
    → (first >>= next) ≡ ok result
    → (value : A) × (first ≡ ok value) × (next value ≡ ok result)
>>=-eq-ok hang next done = cc
>>=-eq-ok (err message) next done = cc
>>=-eq-ok (ok value) next done = (value, refl, done)

pub wrap-eq-ok {ℓ} :
    {A : Type ℓ} (prefix : String) (m : Outcome A) {a : A} → wrap prefix m ≡ ok a → m ≡ ok a
wrap-eq-ok prefix (ok a) h = h
wrap-eq-ok prefix (err e) h = cc
wrap-eq-ok prefix hang h = cc

pub Outcome-cases {ℓ} :
    {A : Type ℓ} (m : Outcome A)
    → ((a : A) × (m ≡ ok a)) ⊎ ((e : String) × (m ≡ err e)) ⊎ (m ≡ hang)
Outcome-cases (ok a) = inl (a, refl)
Outcome-cases (err e) = inr (inl (e, refl))
Outcome-cases hang = inr (inr refl)

pub wrap-ne-hang {ℓ} :
    {A : Type ℓ} (prefix : String) (m : Outcome A) → m ≢ hang → wrap prefix m ≢ hang
wrap-ne-hang prefix (ok a) h = h
wrap-ne-hang prefix (err e) h = λ k. cc k
wrap-ne-hang prefix hang h = h

pub >>=-ne-hang {ℓ κ} :
    {A : Type ℓ} {B : Type κ} (m : Outcome A) (f : A → Outcome B)
    → m ≢ hang
    → ((a : A) → f a ≢ hang)
    → (m >>= f) ≢ hang
>>=-ne-hang (ok a) f h k = k a
>>=-ne-hang (err e) f h k = λ q. cc q
>>=-ne-hang hang f h k = absurd (h refl)

pub if-ne-hang {ℓ} :
    {A : Type ℓ} (b : Bool) (m n : Outcome A) → m ≢ hang → n ≢ hang → (if b then m else n) ≢ hang
if-ne-hang true m n h k = h
if-ne-hang false m n h k = k
