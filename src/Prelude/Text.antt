-- ===== src/Prelude/Text.antt =====
-- Texts as the program walks them: code points, decimal printing, and Go's `%q`.
pub mod Lines
use Prim.Native.Nat.{ℕ, zero, suc, ◌/◌, ◌%◌}
use Prim.Native.Char.{Char, code}
use Prim.Native.String.{String, ◌++◌ as ◌<>◌}
use mathlib.Core.Bool.{Bool, true, false, ◌||◌, ◌&&◌}
use mathlib.Core.List.{List, [], ◌∷◌}
use tcl_script_runner.Prelude.Tests.{ltb, leb, eqb, if◌then◌else◌}

-- The code points of a text: its bytes, if it is ASCII.
abbrev pub codes : String → List ℕ
codes String.[] = []
codes (String.◌∷◌ c s) = code c ∷ codes s

unfoldable pub nth : List String → ℕ → String
nth [] n = ""
nth (d ∷ ds) zero = d
nth (d ∷ ds) (suc n) = nth ds n

abbrev pub hex_digits : List String
hex_digits =
    "0" ∷ "1" ∷ "2" ∷ "3" ∷ "4" ∷ "5" ∷ "6" ∷ "7" ∷ "8" ∷ "9" ∷ "a" ∷ "b" ∷ "c" ∷ "d" ∷ "e" ∷ "f"
    ∷ []

unfoldable pub digit : ℕ → String
unfolding nth
digit n = nth hex_digits n

unfoldable pub show_digits : ℕ → ℕ → String
show_digits zero n = ""
show_digits (suc fuel) n =
    let more = show_digits fuel (n / 10) <> digit (n % 10) in if ltb n 10 then digit n else more

-- A number has fewer digits than units.
unfoldable pub show_ℕ : ℕ → String
unfolding show_digits digit
show_ℕ n = show_digits (suc n) n

-- Two hexadecimal digits of a number below 256.
unfoldable pub hex_byte : ℕ → String
unfolding digit
hex_byte n = digit (n / 16) <> digit (n % 16)

-- How `%q` writes an ASCII character that it does not keep; beyond ASCII it keeps what prints.
escape_rune : ℕ → String → String
escape_rune c kept =
    if eqb c 34
    then "\\\""
    else if eqb c 92
    then "\\\\"
    else if eqb c 7
    then "\\a"
    else if eqb c 8
    then "\\b"
    else if eqb c 12
    then "\\f"
    else if eqb c 10
    then "\\n"
    else if eqb c 13
    then "\\r"
    else if eqb c 9
    then "\\t"
    else if eqb c 11
    then "\\v"
    else if ltb c 32 || eqb c 127
    then "\\x" <> hex_byte c
    else kept

escape_runes : String → String
escape_runes String.[] = ""
escape_runes (String.◌∷◌ c s) = escape_rune (code c) (String.◌∷◌ c "") <> escape_runes s

-- `%q`
unfoldable pub quote : String → String
unfolding escape_runes escape_rune hex_byte
quote s = "\"" <> escape_runes s <> "\""

-- Unicode's white space, as `strings.TrimSpace` tests it.
unfoldable pub is_space : ℕ → Bool
is_space c =
    leb 9 c && leb c 13
    || eqb c 32
    || eqb c 0x85
    || eqb c 0xa0
    || eqb c 0x1680
    || leb 0x2000 c && leb c 0x200a
    || eqb c 0x2028
    || eqb c 0x2029
    || eqb c 0x202f
    || eqb c 0x205f
    || eqb c 0x3000

unfoldable pub trim_left : String → String
trim_left String.[] = ""
trim_left (String.◌∷◌ c s) =
    let rest = trim_left s in if is_space (code c) then rest else String.◌∷◌ c s

pub is_empty : String → Bool
is_empty String.[] = true
is_empty _ = false

unfoldable pub trim_right : String → String
trim_right String.[] = ""
trim_right (String.◌∷◌ c s) =
    let rest = trim_right s in if is_space (code c) && is_empty rest then "" else String.◌∷◌ c rest

-- `strings.TrimSpace`
unfoldable pub trim_space : String → String
unfolding trim_left trim_right is_space is_empty
trim_space s = trim_right (trim_left s)

-- A text before the first of the parts that follow it.
unfoldable pub prepend : Char → List String → List String
prepend c [] = String.◌∷◌ c "" ∷ []
prepend c (s ∷ ss) = String.◌∷◌ c s ∷ ss

-- `strings.Split(s, ",")`
unfoldable pub split_comma : String → List String
unfolding prepend
split_comma String.[] = "" ∷ []
split_comma (String.◌∷◌ c s) =
    let rest = split_comma s in if eqb (code c) b',' then "" ∷ rest else prepend c rest
