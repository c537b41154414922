-- ===== src/Prelude/Base64.antt =====
-- Go's `base64.StdEncoding`: padded, deaf to line breaks in its input and to the unused bits of
-- the last symbol.
pub mod RoundTrip
use Prim.Native.Nat.{ℕ, zero, suc, ◌+◌, ◌-◌, ◌*◌, ◌/◌, ◌%◌}
use Prim.Native.Char.{Char, code}
use Prim.Native.String.{String}
use mathlib.Core.Path.{◌≡◌, refl}
use mathlib.Core.Bool.{Bool, true, false, ◌&&◌, ◌||◌}
use mathlib.Core.Option.{Option, none, some}
use mathlib.Core.List.{List, [], ◌∷◌, ◌++◌}
use tcl_script_runner.Prelude.Tests.{ltb, leb, eqb, if◌then◌else◌}
use tcl_script_runner.Prelude.Text.{codes}
use tcl_script_runner.Prelude.Utf8.{Bytes}

chars : String → List Char
chars String.[] = []
chars (String.◌∷◌ c s) = c ∷ chars s

char_at : List Char → ℕ → Char
char_at [] n = "="
char_at (c ∷ cs) zero = c
char_at (c ∷ cs) (suc n) = char_at cs n

symbol : ℕ → Char
unfolding chars char_at
symbol n = char_at (chars "ABCDEFGHIJKLMNOPQRSTUVWXYZabcdefghijklmnopqrstuvwxyz0123456789+/") n

pad : Char
pad = "="

-- `EncodeToString`
unfoldable pub encode : Bytes → String
unfolding symbol pad
encode [] = ""
encode (x ∷ []) =
    String.◌∷◌ (symbol (x / 4))
      (String.◌∷◌ (symbol (x % 4 * 16)) (String.◌∷◌ pad (String.◌∷◌ pad "")))
encode (x ∷ y ∷ []) = String.◌∷◌ (symbol (x / 4)) (
    String.◌∷◌ (symbol (x % 4 * 16 + y / 16))
      (String.◌∷◌ (symbol (y % 16 * 4)) (String.◌∷◌ pad "")))
encode (x ∷ y ∷ z ∷ rest) = String.◌∷◌ (symbol (x / 4)) (
    String.◌∷◌ (symbol (x % 4 * 16 + y / 16))
      (String.◌∷◌ (symbol (y % 16 * 4 + z / 64)) (String.◌∷◌ (symbol (z % 64)) (encode rest))))

-- The value of a symbol.
value : ℕ → Option ℕ
value c =
    if leb b'A' c && leb c b'Z'
    then some (c - b'A')
    else if leb b'a' c && leb c b'z'
    then some (c - b'a' + 26)
    else if leb b'0' c && leb c b'9'
    then some (c - b'0' + 52)
    else if eqb c b'+'
    then some 62
    else if eqb c b'/'
    then some 63
    else none

skip_breaks : List ℕ → List ℕ
skip_breaks [] = []
skip_breaks (c ∷ cs) = let rest = skip_breaks cs in if eqb c 10 || eqb c 13 then rest else c ∷ rest

infixl 5 ◌>>=◌
abbrev ◌>>=◌ : {A B : Type 0} → Option A → (A → Option B) → Option B
none >>= f = none
some a >>= f = f a

nothing_left : List ℕ → Bytes → Option Bytes
nothing_left [] bytes = some bytes
nothing_left _ bytes = none

-- Four symbols with values, or the last ones before the padding.
quantum : ℕ → ℕ → ℕ → ℕ → List ℕ → Option Bytes → Option Bytes
unfolding value nothing_left
quantum a b c d rest more = do
  va ← value a
  vb ← value b
  if eqb c b'='
      then (if eqb d b'=' then nothing_left rest ((va * 4 + vb / 16) ∷ []) else none)
      else do
        vc ← value c
        if eqb d b'='
            then nothing_left rest ((va * 4 + vb / 16) ∷ (vb % 16 * 16 + vc / 4) ∷ [])
            else do
              vd ← value d
              bytes ← more
              some ((va * 4 + vb / 16) ∷ (vb % 16 * 16 + vc / 4) ∷ (vc % 4 * 64 + vd) ∷ bytes)

decode_codes : List ℕ → Option Bytes
decode_codes [] = some []
decode_codes (a ∷ b ∷ c ∷ d ∷ rest) = let more = decode_codes rest in quantum a b c d rest more
decode_codes _ = none

-- `DecodeString`; `none` is a `CorruptInputError`.
unfoldable pub decode : String → Option Bytes
unfolding decode_codes quantum skip_breaks
decode s = decode_codes (skip_breaks (codes s))

hello : encode (104 ∷ 101 ∷ 108 ∷ 108 ∷ 111 ∷ []) ≡ "aGVsbG8="
unfolding encode
hello = refl

hello_back : decode "aGVs\nbG8=" ≡ some (104 ∷ 101 ∷ 108 ∷ 108 ∷ 111 ∷ [])
unfolding decode
hello_back = refl
