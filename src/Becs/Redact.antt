-- ===== src/Becs/Redact.antt =====
-- internal/becs/client.go: `redact`, which masks password values by the regular expression
-- `("password"\s*:\s*")(?:\\.|[^"\\])*(")`.
use Prim.Native.Char.{code}
use tcl_script_runner.Prelude.{
  ℕ, zero, suc, ◌+◌, ◌-◌, String, ◌<>◌, Bool, Option, none, some, ◌||◌, eqb, ◌≡◌, refl,
  if◌then◌else◌,
}

-- A part of a match: its text, its number of characters, and what follows it.
abbrev Part : Type 0
Part = record { text : String; count : ℕ; rest : String }

infixl 5 ◌>>=◌
abbrev ◌>>=◌ : {A B : Type 0} → Option A → (A → Option B) → Option B
none >>= f = none
some a >>= f = f a

-- A literal at the front of a text.
literal : String → String → Option Part
literal String.[] s = some (record { text = ""; count = 0; rest = s })
literal (String.◌∷◌ c l) String.[] = none
literal (String.◌∷◌ c l) (String.◌∷◌ d s) =
    if eqb (code c) (code d)
    then (literal l s >>= λ p.
        some (record { text = String.◌∷◌ d p.text; count = suc p.count; rest = p.rest }))
    else none

-- `\s`
is_blank : ℕ → Bool
is_blank c = eqb c 9 || eqb c 10 || eqb c 12 || eqb c 13 || eqb c 32

-- `\s*`
blanks : String → Part
blanks String.[] = record { text = ""; count = 0; rest = "" }
blanks (String.◌∷◌ c s) =
    let p = blanks s in
    if is_blank (code c)
    then record { text = String.◌∷◌ c p.text; count = suc p.count; rest = p.rest }
    else record { text = ""; count = 0; rest = String.◌∷◌ c s }

-- `(?:\\.|[^"\\])*"`: how many characters up to and with the closing quote. At each character one
-- alternative fits at most, so there is nothing to choose. After a backslash any character but a
-- line break goes.
mutual
  value_end : String → Option ℕ
  value_end String.[] = none
  value_end (String.◌∷◌ c s) =
      if eqb (code c) 34
      then some 1
      else if eqb (code c) 92
      then (escaped_end s >>= λ n. some (suc n))
      else (value_end s >>= λ n. some (suc n))

  escaped_end : String → Option ℕ
  escaped_end String.[] = none
  escaped_end (String.◌∷◌ c s) =
      if eqb (code c) 10 then none else (value_end s >>= λ n. some (suc n))

-- A match at the front of a text: the first group, and the number of characters of the match.
match : String → Option (String × ℕ)
unfolding literal blanks is_blank value_end escaped_end
match s = do
  key ← literal "\"password\"" s
  let before = blanks key.rest
  colon ← literal ":" before.rest
  let behind = blanks colon.rest
  open_ ← literal "\"" behind.rest
  n ← value_end open_.rest
  some (
    key.text <> before.text <> colon.text <> behind.text <> open_.text,
    key.count + before.count + colon.count + behind.count + open_.count + n,
  )

-- `ReplaceAllString`, from left to right: a match is replaced and its characters are passed over.
redact_from : ℕ → String → String
unfolding match
redact_from skip String.[] = ""
redact_from (suc skip) (String.◌∷◌ c s) = redact_from skip s
redact_from zero (String.◌∷◌ c s) = elim (match (String.◌∷◌ c s)) [
  | none ↦ String.◌∷◌ c (redact_from zero s)
  | some (group, n) ↦ group <> "***" <> "\"" <> redact_from (n - 1) s
]

unfoldable pub redact : String → String
unfolding redact_from
redact s = redact_from 0 s

redact_test :
    redact "{\"password\" : \"a\\\"b\",\"x\":\"password\",\"password\":\"\"}"
    ≡ "{\"password\" : \"***\",\"x\":\"password\",\"password\":\"***\"}"
unfolding redact
redact_test = refl

redact_open : redact "{\"password\":\"ab" ≡ "{\"password\":\"ab"
unfolding redact
redact_open = refl
