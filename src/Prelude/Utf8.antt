-- ===== src/Prelude/Utf8.antt =====
-- Go's conversions between a text and its bytes, `[]byte(s)` and `string(b)`, at the characters of
-- a text. Bytes that are no UTF-8 read as U+FFFD, one at a time, as in a `range` loop.
pub mod RoundTrip
use Prim.Native.Nat.{ℕ, zero, suc, ◌+◌, ◌-◌, ◌*◌, ◌/◌, ◌%◌, ◌<◌, compare, Ordering}
use Prim.Native.Char.{Char, char, code, IsLt, IsScalar}
use Prim.Native.String.{String}
use mathlib.Core.Bool.{Bool, true, false, ◌&&◌}
use mathlib.Core.Option.{Option, none, some}
use mathlib.Core.List.{List, [], ◌∷◌, ◌++◌}
use tcl_script_runner.Prelude.Tests.{ltb, leb, if◌then◌else◌}

abbrev pub Bytes : Type 0
Bytes = List ℕ

-- Numbers that are bytes.
abbrev pub AreBytes : Bytes → Type 0
AreBytes [] = Unit
AreBytes (b ∷ bs) = (b < 256) × AreBytes bs

pub AreBytes-append : (xs ys : Bytes) → AreBytes xs → AreBytes ys → AreBytes (xs ++ ys)
AreBytes-append [] ys hx hy = hy
AreBytes-append (x ∷ xs) ys (h, hx) hy = (h, AreBytes-append xs ys hx hy)

encode_rune : ℕ → Bytes
encode_rune n =
    if ltb n 0x80
    then n ∷ []
    else if ltb n 0x800
    then (192 + n / 64) ∷ (128 + n % 64) ∷ []
    else if ltb n 0x10000
    then (224 + n / 4096) ∷ (128 + n / 64 % 64) ∷ (128 + n % 64) ∷ []
    else (240 + n / 262144) ∷ (128 + n / 4096 % 64) ∷ (128 + n / 64 % 64) ∷ (128 + n % 64) ∷ []

-- `[]byte(s)`
unfoldable pub to_bytes : String → Bytes
unfolding encode_rune
to_bytes String.[] = []
to_bytes (String.◌∷◌ c s) = encode_rune (code c) ++ to_bytes s

-- `IsScalar` of three comparisons, and a test for it.
abbrev Both : Ordering → Ordering → Type 0
Both Ordering.lt o = IsLt o
Both Ordering.eq _ = ⊥
Both Ordering.gt _ = ⊥

abbrev Scalar : Ordering → Ordering → Ordering → Type 0
Scalar Ordering.lt _ _ = Unit
Scalar Ordering.eq o p = Both o p
Scalar Ordering.gt o p = Both o p

both? : (o p : Ordering) → Option (Both o p)
both? Ordering.lt Ordering.lt = some tt
both? _ _ = none

scalar? : (o p q : Ordering) → Option (Scalar o p q)
unfolding both?
scalar? Ordering.lt p q = some tt
scalar? Ordering.eq p q = both? p q
scalar? Ordering.gt p q = both? p q

abbrev with_proof : (n : ℕ) → Option (IsScalar n) → Option Char
with_proof n none = none
with_proof n (some p) = some (char n p)

pub to_char : ℕ → Option Char
unfolding scalar?
to_char n = with_proof n (scalar? (compare n 55296) (compare 57343 n) (compare n 1114112))

follows : ℕ → Bool
follows b = leb 128 b && ltb b 192

abbrev replacement : Char
replacement = "�"

-- A character and how many bytes after the first it takes.
abbrev Rune : Type 0
Rune = Char × ℕ

abbrev rune : Option Char → ℕ → Rune
rune none n = (replacement, 0)
rune (some c) n = (c, n)

-- A number below `least` has a shorter form, which is the only one allowed.
checked : ℕ → ℕ → ℕ → Rune
unfolding to_char
checked least n more = if leb least n then rune (to_char n) more else (replacement, 0)

decode_four : ℕ → Bytes → Rune
unfolding follows checked
decode_four a (b ∷ c ∷ d ∷ rest) =
    if follows b && follows c && follows d
    then checked 0x10000 ((a - 240) * 262144 + (b - 128) * 4096 + (c - 128) * 64 + (d - 128)) 3
    else (replacement, 0)
decode_four a rest = (replacement, 0)

decode_three : ℕ → Bytes → Rune
unfolding follows checked
decode_three a (b ∷ c ∷ rest) =
    if follows b && follows c
    then checked 0x800 ((a - 224) * 4096 + (b - 128) * 64 + (c - 128)) 2
    else (replacement, 0)
decode_three a rest = (replacement, 0)

decode_two : ℕ → Bytes → Rune
unfolding follows checked
decode_two a (b ∷ rest) =
    if follows b then checked 0x80 ((a - 192) * 64 + (b - 128)) 1 else (replacement, 0)
decode_two a rest = (replacement, 0)

decode_rune : ℕ → Bytes → Rune
decode_rune a rest =
    if ltb a 0x80
    then rune (to_char a) 0
    else if leb 192 a && ltb a 224
    then decode_two a rest
    else if leb 224 a && ltb a 240
    then decode_three a rest
    else if leb 240 a && ltb a 248
    then decode_four a rest
    else (replacement, 0)

-- The bytes of a character after its first are skipped.
decode_from : ℕ → Bytes → String
decode_from skip [] = ""
decode_from (suc skip) (b ∷ rest) = decode_from skip rest
decode_from zero (b ∷ rest) = let r = decode_rune b rest in String.◌∷◌ r.0 (decode_from r.1 rest)

-- `string(b)`
unfoldable pub of_bytes : Bytes → String
unfolding decode_from decode_rune decode_two decode_three decode_four checked to_char follows
of_bytes b = decode_from 0 b
