-- ===== src/Json.antt =====
-- Go's `encoding/json`, as far as the program uses it: values, the text that `Marshal` writes, and
-- how `Unmarshal` stores a value into a field.
pub mod Decode
use Prim.Native.Char.{code}
use tcl_script_runner.Prelude.{ℕ, String, ◌<>◌, Bool, true, false, ltb, eqb, ◌||◌, if◌then◌else◌}
use tcl_script_runner.Prelude.Int.{ℤ, show_ℤ}
use tcl_script_runner.Prelude.Text.{hex_byte}

-- A number is an integer literal, or another literal as it is written.
mutual
  pub data Json : Type 0 where
    null : Json
    bool : Bool → Json
    int : ℤ → Json
    real : String → Json
    str : String → Json
    arr : Items → Json
    obj : Fields → Json

  pub data Items : Type 0 where
    nil : Items
    cons : Json → Items → Items

  pub data Fields : Type 0 where
    end : Fields
    field : String → Json → Fields → Fields

-- What a character of a string is written as.
pub escape_char : ℕ → String → String
escape_char c kept =
    if eqb c 34
    then "\\\""
    else if eqb c 92
    then "\\\\"
    else if eqb c 8
    then "\\b"
    else if eqb c 12
    then "\\f"
    else if eqb c 10
    then "\\n"
    else if eqb c 13
    then "\\r"
    else if eqb c 9
    then "\\t"
    else if ltb c 32 || eqb c 60 || eqb c 62 || eqb c 38
    then "\\u00" <> hex_byte c
    else if eqb c 0x2028
    then "\\u2028"
    else if eqb c 0x2029
    then "\\u2029"
    else kept

unfoldable pub escape : String → String
unfolding escape_char hex_byte
escape String.[] = ""
escape (String.◌∷◌ c s) = escape_char (code c) (String.◌∷◌ c "") <> escape s

abbrev pub quoted : String → String
quoted s = "\"" <> escape s <> "\""

unfoldable mutual
  pub print : Json → String
  print null = "null"
  print (bool true) = "true"
  print (bool false) = "false"
  print (int n) = show_ℤ n
  print (real text) = text
  print (str s) = quoted s
  print (arr xs) = "[" <> print_items xs <> "]"
  print (obj fs) = "{" <> print_fields fs <> "}"

  pub print_items : Items → String
  print_items nil = ""
  print_items (cons x nil) = print x
  print_items (cons x (cons y xs)) = print x <> "," <> print_items (cons y xs)

  pub print_fields : Fields → String
  print_fields end = ""
  print_fields (field k v end) = quoted k <> ":" <> print v
  print_fields (field k v (field l w fs)) =
      quoted k <> ":" <> print v <> "," <> print_fields (field l w fs)
