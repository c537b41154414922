-- ===== src/Prelude/Base64/RoundTrip.antt =====
-- `DecodeString` against `EncodeToString`.
use Prim.Native.Nat.{ℕ, zero, suc, ◌+◌, ◌*◌, ◌/◌, ◌%◌, ◌<◌}
use Prim.Native.Char.{code}
use mathlib.Core.Path.{◌≡◌, refl}
use mathlib.Core.Bool.{Bool, true, false, ◌&&◌}
use mathlib.Core.Option.{Option, none, some}
use mathlib.Core.List.{List, [], ◌∷◌}
use native.Mathlib.Omega.{arith}
use tcl_script_runner.Prelude.Tests.{eqb, if◌then◌else◌}
use tcl_script_runner.Prelude.Text.{codes}
use tcl_script_runner.Prelude.Utf8.{Bytes, AreBytes}
use tcl_script_runner.Prelude.Base64.{symbol, value, encode, skip_breaks, quantum, decode}

same : Option ℕ → ℕ → Bool
same none n = false
same (some m) n = eqb m n

-- A symbol has its value, and is neither the padding nor a line break.
good : ℕ → Bool
unfolding same
good n =
    let c = code (symbol n) in
    same (value c) n
    && (if eqb c b'=' then false else if eqb c 10 then false else if eqb c 13 then false else true)

-- The first `n` symbols are good.
good_symbols : ℕ → Bool
good_symbols zero = true
good_symbols (suc n) = good_symbols n && good n

one_is_good : (count n : ℕ) → n < count → good_symbols count ≡ true → good n ≡ true
unfolding good_symbols
one_is_good zero n in_range table = absurd (omega arith)
one_is_good (suc count) n in_range table = ground (arith, one_is_good count n)

good_table : good_symbols 64 ≡ true
unfolding good_symbols good value encode
good_table = refl

module _ (n : ℕ) (h : n < 64) where
  value-symbol : value (code (symbol n)) ≡ some n
  unfolding good
  value-symbol = ground (arith, one_is_good 64 n h good_table)

  symbol-ne-pad : eqb (code (symbol n)) b'=' ≡ false
  unfolding good
  symbol-ne-pad = ground (arith, one_is_good 64 n h good_table)

  skip_breaks-symbol :
      (cs : List ℕ) → skip_breaks (code (symbol n) ∷ cs) ≡ code (symbol n) ∷ skip_breaks cs
  unfolding good skip_breaks
  skip_breaks-symbol cs = ground (arith, one_is_good 64 n h good_table)

module _ (a b : ℕ) (ha : a < 64) (hb : b < 64) (more : Option Bytes) where
  one_byte :
      quantum (code (symbol a)) (code (symbol b)) b'=' b'=' [] more ≡ some ((a * 4 + b / 16) ∷ [])
  unfolding quantum
  one_byte = rw (value-symbol a ha, value-symbol b hb)

  two_bytes :
      (c : ℕ)
      → c < 64
      → quantum (code (symbol a)) (code (symbol b)) (code (symbol c)) b'=' [] more
        ≡ some ((a * 4 + b / 16) ∷ (b % 16 * 16 + c / 4) ∷ [])
  unfolding quantum
  two_bytes c hc = rw (value-symbol a ha, value-symbol b hb, symbol-ne-pad c hc, value-symbol c hc)

three_bytes :
    (a b c d : ℕ) (rest : List ℕ) (bytes : Bytes)
    → a < 64
    → b < 64
    → c < 64
    → d < 64
    → quantum
        (code (symbol a))
        (code (symbol b))
        (code (symbol c))
        (code (symbol d))
        rest
        (some bytes)
      ≡ some ((a * 4 + b / 16) ∷ (b % 16 * 16 + c / 4) ∷ (c % 4 * 64 + d) ∷ bytes)
unfolding quantum
three_bytes a b c d rest bytes ha hb hc hd = rw (
  value-symbol a ha,
  value-symbol b hb,
  symbol-ne-pad c hc,
  value-symbol c hc,
  symbol-ne-pad d hd,
  value-symbol d hd,
)

-- Bytes survive being written as Base64 and read back.
pub decode-encode : (bs : Bytes) → AreBytes bs → decode (encode bs) ≡ some bs
unfolding decode encode
decode-encode [] h = refl
decode-encode (x ∷ []) (hx, _) =
    let e : x / 4 * 4 + x % 4 * 16 / 16 ≡ x = omega arith in
    rw (
      skip_breaks-symbol (x / 4) (omega arith),
      skip_breaks-symbol (x % 4 * 16) (omega arith),
      one_byte (x / 4) (x % 4 * 16) (omega arith) (omega arith),
      e,
    )
decode-encode (x ∷ y ∷ []) (hx, (hy, _)) =
    let e : x / 4 * 4 + (x % 4 * 16 + y / 16) / 16 ≡ x = omega arith in
    let f : (x % 4 * 16 + y / 16) % 16 * 16 + y % 16 * 4 / 4 ≡ y = omega arith in
    rw (
      skip_breaks-symbol (x / 4) (omega arith),
      skip_breaks-symbol (x % 4 * 16 + y / 16) (omega arith),
      skip_breaks-symbol (y % 16 * 4) (omega arith),
      two_bytes (x / 4) (x % 4 * 16 + y / 16) (omega arith) (omega arith) none (y % 16 * 4)
          (omega arith),
      e,
      f,
    )
decode-encode (x ∷ y ∷ z ∷ rest) (hx, (hy, (hz, hr))) =
    let e : x / 4 * 4 + (x % 4 * 16 + y / 16) / 16 ≡ x = omega arith in
    let f : (x % 4 * 16 + y / 16) % 16 * 16 + (y % 16 * 4 + z / 64) / 4 ≡ y = omega arith in
    let g : (y % 16 * 4 + z / 64) % 4 * 64 + z % 64 ≡ z = omega arith in
    rw (
      skip_breaks-symbol (x / 4) (omega arith),
      skip_breaks-symbol (x % 4 * 16 + y / 16) (omega arith),
      skip_breaks-symbol (y % 16 * 4 + z / 64) (omega arith),
      skip_breaks-symbol (z % 64) (omega arith),
      decode-encode rest hr,
      three_bytes (x / 4) (x % 4 * 16 + y / 16) (y % 16 * 4 + z / 64) (z % 64)
          (skip_breaks (codes (encode rest))) rest (omega arith) (omega arith) (omega arith)
          (omega arith),
      e,
      f,
      g,
    )
