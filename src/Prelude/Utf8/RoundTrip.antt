-- ===== src/Prelude/Utf8/RoundTrip.antt =====
-- The bytes of a text, read as a text.
use Prim.Native.Nat.{ℕ, ◌+◌, ◌-◌, ◌*◌, ◌/◌, ◌%◌, ◌≤◌, ◌<◌, compare, Ordering}
use Prim.Native.Char.{Char, char, code}
use Prim.Native.String.{String}
use mathlib.Core.Path.{◌≡◌, refl, ◌∙◌, ap}
use mathlib.Core.Bool.{true}
use mathlib.Core.Option.{some}
use mathlib.Core.List.{[], ◌∷◌, ◌++◌}
use native.Mathlib.Omega.{arith}
use native.Mathlib.Decide.{dec_lt}
use text.Mathlib.TextEquality.{Char-path}
use tcl_script_runner.Prelude.Utf8.{
  AreBytes, AreBytes-append, Bytes, encode_rune, to_bytes, Both, Scalar, both?, scalar?, to_char,
  rune, checked, follows, decode_two, decode_three, decode_four, decode_rune, decode_from, of_bytes,
}

both?-total : (o p : Ordering) → Both o p → (q : Both o p) × (both? o p ≡ some q)
unfolding both?
both?-total Ordering.lt Ordering.lt h = (tt, refl)
both?-total Ordering.lt Ordering.eq h = elim h [ ]
both?-total Ordering.lt Ordering.gt h = elim h [ ]
both?-total Ordering.eq p h = elim h [ ]
both?-total Ordering.gt p h = elim h [ ]

scalar?-total : (o p q : Ordering) → Scalar o p q → (r : Scalar o p q) × (scalar? o p q ≡ some r)
unfolding scalar?
scalar?-total Ordering.lt p q h = (tt, refl)
scalar?-total Ordering.eq p q h = both?-total p q h
scalar?-total Ordering.gt p q h = both?-total p q h

to_char-code : (c : Char) → to_char (code c) ≡ some c
unfolding to_char
to_char-code (char n p) =
    let (q, e) = scalar?-total (compare n 55296) (compare 57343 n) (compare n 1114112) p in
    rw e (ap some (Char-path (char n q) (char n p) refl))

code_bound : (c : Char) → code c < 1114112
code_bound (char n p) = ground arith

checked_lem : (least n more : ℕ) → least ≤ n → checked least n more ≡ rune (to_char n) more
unfolding checked
checked_lem least n more h = ground arith

follows_low : (n : ℕ) → follows (128 + n % 64) ≡ true
unfolding follows
follows_low n = ground arith

module _ (n : ℕ) (rest : Bytes) where
  decode_two_lem : 0x80 ≤ n → decode_two (192 + n / 64) ((128 + n % 64) ∷ rest) ≡ rune (to_char n) 1
  unfolding decode_two
  decode_two_lem h =
      let e : (192 + n / 64 - 192) * 64 + (128 + n % 64 - 128) ≡ n = omega arith in
      rw (follows_low, e) (checked_lem 0x80 n 1 h)

  decode_three_lem :
      0x800 ≤ n
      → decode_three (224 + n / 4096) ((128 + n / 64 % 64) ∷ (128 + n % 64) ∷ rest)
        ≡ rune (to_char n) 2
  unfolding decode_three
  decode_three_lem h =
      let e : (224 + n / 4096 - 224) * 4096 + (128 + n / 64 % 64 - 128) * 64 + (128 + n % 64 - 128)
          ≡ n =
        omega arith in
      rw (follows_low (n / 64), follows_low n, e) (checked_lem 0x800 n 2 h)

  decode_four_lem :
      0x10000 ≤ n
      → decode_four
          (240 + n / 262144)
          ((128 + n / 4096 % 64) ∷ (128 + n / 64 % 64) ∷ (128 + n % 64) ∷ rest)
        ≡ rune (to_char n) 3
  unfolding decode_four
  decode_four_lem h =
      let e : (240 + n / 262144 - 240) * 262144
            + (128 + n / 4096 % 64 - 128) * 4096
            + (128 + n / 64 % 64 - 128) * 64
            + (128 + n % 64 - 128)
          ≡ n =
        omega arith in
      rw (follows_low (n / 4096), follows_low (n / 64), follows_low n, e)
        (checked_lem 0x10000 n 3 h)

  encode_one : n < 0x80 → encode_rune n ≡ n ∷ []
  unfolding encode_rune
  encode_one h = ground arith

  encode_two : 0x80 ≤ n → n < 0x800 → encode_rune n ≡ (192 + n / 64) ∷ (128 + n % 64) ∷ []
  unfolding encode_rune
  encode_two h k = ground arith

  encode_three :
      0x800 ≤ n
      → n < 0x10000
      → encode_rune n ≡ (224 + n / 4096) ∷ (128 + n / 64 % 64) ∷ (128 + n % 64) ∷ []
  unfolding encode_rune
  encode_three h k = ground arith

  encode_four :
      0x10000 ≤ n
      → encode_rune n
        ≡ (240 + n / 262144) ∷ (128 + n / 4096 % 64) ∷ (128 + n / 64 % 64) ∷ (128 + n % 64) ∷ []
  unfolding encode_rune
  encode_four h = ground arith

  lead_one : n < 0x80 → decode_rune n rest ≡ rune (to_char n) 0
  unfolding decode_rune
  lead_one h = ground arith

  lead_two : n < 0x800 → decode_rune (192 + n / 64) rest ≡ decode_two (192 + n / 64) rest
  unfolding decode_rune
  lead_two h = ground arith

  lead_three : n < 0x10000 → decode_rune (224 + n / 4096) rest ≡ decode_three (224 + n / 4096) rest
  unfolding decode_rune
  lead_three h = ground arith

  lead_four :
      n < 1114112 → decode_rune (240 + n / 262144) rest ≡ decode_four (240 + n / 262144) rest
  unfolding decode_rune
  lead_four h = ground arith

module _ (n : ℕ) (rest : Bytes) (c : Char) (e : to_char n ≡ some c) where
  from_one : n < 0x80 → decode_from 0 (encode_rune n ++ rest) ≡ String.◌∷◌ c (decode_from 0 rest)
  unfolding decode_from
  from_one h = rw (encode_one n rest h, lead_one n rest h, e)

  from_two :
      0x80 ≤ n
      → n < 0x800
      → decode_from 0 (encode_rune n ++ rest) ≡ String.◌∷◌ c (decode_from 0 rest)
  unfolding decode_from
  from_two h k = rw (encode_two n rest h k, lead_two n _ k, decode_two_lem n rest h, e)

  from_three :
      0x800 ≤ n
      → n < 0x10000
      → decode_from 0 (encode_rune n ++ rest) ≡ String.◌∷◌ c (decode_from 0 rest)
  unfolding decode_from
  from_three h k = rw (encode_three n rest h k, lead_three n _ k, decode_three_lem n rest h, e)

  from_four :
      0x10000 ≤ n
      → n < 1114112
      → decode_from 0 (encode_rune n ++ rest) ≡ String.◌∷◌ c (decode_from 0 rest)
  unfolding decode_from
  from_four h k = rw (encode_four n rest h, lead_four n _ k, decode_four_lem n rest h, e)

-- The bytes of a character are read as that character, and what follows is read on from there.
decode_from-encode_rune :
    (c : Char) (rest : Bytes)
    → decode_from 0 (encode_rune (code c) ++ rest) ≡ String.◌∷◌ c (decode_from 0 rest)
decode_from-encode_rune c rest =
    let e = to_char-code c in
    elim (dec_lt (code c) 0x80) [
      | yes h ↦ from_one (code c) rest c e h
      | no h ↦ elim (dec_lt (code c) 0x800) [
        | yes k ↦ from_two (code c) rest c e (omega arith) k
        | no k ↦ elim (dec_lt (code c) 0x10000) [
          | yes l ↦ from_three (code c) rest c e (omega arith) l
          | no l ↦ from_four (code c) rest c e (omega arith) (code_bound c)
        ]
      ]
    ]

-- `string([]byte(s))` is `s`.
pub of_bytes-to_bytes : (s : String) → of_bytes (to_bytes s) ≡ s
unfolding of_bytes to_bytes
of_bytes-to_bytes String.[] = refl
of_bytes-to_bytes (String.◌∷◌ c s) =
    decode_from-encode_rune c (to_bytes s) ∙ ap (λ t. String.◌∷◌ c t) (of_bytes-to_bytes s)

encode_rune-AreBytes : (n : ℕ) → n < 1114112 → AreBytes (encode_rune n)
unfolding encode_rune
encode_rune-AreBytes n h = ground arith

-- The bytes of a text are below 256.
pub to_bytes-AreBytes : (s : String) → AreBytes (to_bytes s)
unfolding to_bytes
to_bytes-AreBytes String.[] = tt
to_bytes-AreBytes (String.◌∷◌ c s) =
    AreBytes-append (encode_rune (code c)) (to_bytes s)
      (encode_rune-AreBytes (code c) (code_bound c)) (to_bytes-AreBytes s)
