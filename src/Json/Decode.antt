-- ===== src/Json/Decode.antt =====
-- `json.Unmarshal` into the types of the program's structs. Each function takes what the field
-- held; `none` is an error. A null changes nothing, and a name may differ in case from the field's.
use Prim.Native.Char.{code}
use tcl_script_runner.Prelude.{
  ℕ, ◌-◌, ◌^◌, String, Bool, true, false, Option, none, some, List, [], ◌∷◌, ◌&&◌, ltb, leb, eqb,
  if◌then◌else◌,
}
use tcl_script_runner.Prelude.Int.{ℤ, pos, negsuc}
use tcl_script_runner.Prelude.Utf8.{Bytes}
use tcl_script_runner.Prelude.Base64
use tcl_script_runner.Json.{Json, null, int, str, arr, obj, Items, nil, cons, Fields, end, field}

infixl 5 ◌>>=◌
abbrev pub ◌>>=◌ {ℓ κ} : {A : Type ℓ} {B : Type κ} → Option A → (A → Option B) → Option B
none >>= f = none
some a >>= f = f a

-- Simple case folding, as far as it can reach an ASCII name.
fold : ℕ → ℕ
fold c =
    if leb b'a' c && leb c b'z'
    then c - 32
    else if eqb c 0x17f
    then b'S'
    else if eqb c 0x212a
    then b'K'
    else c

-- The names of the program's fields are ASCII.
unfoldable pub same_name : String → String → Bool
unfolding fold
same_name String.[] String.[] = true
same_name (String.◌∷◌ c s) (String.◌∷◌ d t) = eqb (fold (code c)) (fold (code d)) && same_name s t
same_name _ _ = false

in_int64 : ℤ → Bool
in_int64 (pos n) = ltb n (2 ^ 63)
in_int64 (negsuc n) = ltb n (2 ^ 63)

unfoldable pub decode_int : ℤ → Json → Option ℤ
unfolding in_int64
decode_int old null = some old
decode_int old (int z) = if in_int64 z then some z else none
decode_int old _ = none

unfoldable pub decode_string : String → Json → Option String
decode_string old null = some old
decode_string old (str s) = some s
decode_string old _ = none

bytes_of_items : Items → Option Bytes
bytes_of_items nil = some []
bytes_of_items (cons (int (pos n)) xs) =
    let more = bytes_of_items xs in if ltb n 256 then (more >>= λ bs. some (n ∷ bs)) else none
bytes_of_items (cons null xs) = bytes_of_items xs >>= λ bs. some (0 ∷ bs)
bytes_of_items (cons _ xs) = none

unfoldable pub decode_bytes : Bytes → Json → Option Bytes
unfolding bytes_of_items
decode_bytes old null = some []
decode_bytes old (str s) = Base64.decode s
decode_bytes old (arr xs) = bytes_of_items xs
decode_bytes old _ = none

module _ {A : Type 0} where
  -- The members of an object one after the other; an unknown name is passed over by the step.
  unfoldable pub fold_fields : (String → Json → A → Option A) → Fields → A → Option A
  fold_fields step end a = some a
  fold_fields step (field name v fs) a = step name v a >>= fold_fields step fs

  unfoldable pub decode_struct : (String → Json → A → Option A) → A → Json → Option A
  unfolding fold_fields
  decode_struct step old null = some old
  decode_struct step old (obj fs) = fold_fields step fs old
  decode_struct step old _ = none

  decode_items : (Json → Option A) → Items → Option (List A)
  decode_items decode nil = some []
  decode_items decode (cons x xs) = do a ← decode x; rest ← decode_items decode xs; some (a ∷ rest)

  unfoldable pub decode_list : (Json → Option A) → List A → Json → Option (List A)
  unfolding decode_items
  decode_list decode old null = some []
  decode_list decode old (arr xs) = decode_items decode xs
  decode_list decode old _ = none
