-- ===== src/Web/Form/Labels.antt =====
-- internal/web/handlers.go: `parseLabels` against a reference that looks a key up from the last row.
use mathlib.Core.Path.{subst}
use tcl_script_runner.Prelude.{
  String, ◌==◌, Option, none, some, List, [], ◌∷◌, ◌≡◌, ◌≢◌, refl, ap, ◌∙◌, Bool-cases, inl, inr,
  arith, eq_iff, if◌then◌else◌,
}
use tcl_script_runner.Prelude.Text.{trim_space}
use tcl_script_runner.Web.Form.{Form, values, first, put_label, label_rows, parse_labels}

-- Go's `labels[k]`, with `none` for a key that is missing.
pub label : String → List (String × String) → Option String
label k [] = none
label k ((key, v) ∷ labels) = if key == k then some v else label k labels

abbrev pub or_else : Option String → Option String → Option String
or_else (some v) o = some v
or_else none o = o

abbrev rest : List String → List String
rest [] = []
rest (v ∷ vs) = vs

-- The trimmed value beside the last key that is `k` when it is trimmed.
pub last_row : String → List String → List String → Option String
last_row k [] vals = none
last_row k (key ∷ keys) vals =
    or_else (last_row k keys (rest vals))
      (if trim_space key == k then some (trim_space (first vals)) else none)

label-put_label :
    (k key v : String) (labels : List (String × String))
    → label k (put_label key v labels) ≡ (if key == k then some v else label k labels)
unfolding label put_label
label-put_label k key v [] = refl
label-put_label k key v ((other, u) ∷ labels) =
    ground (arith, eq_iff other key, eq_iff other k, eq_iff key k, label-put_label k key v labels)

-- What one row makes of the labels.
abbrev row : String → String → List (String × String) → List (String × String)
row key v labels = if key == "" then labels else put_label key v labels

label-row :
    (k key v : String) (labels : List (String × String))
    → k ≢ ""
    → label k (row key v labels) ≡ or_else (if key == k then some v else none) (label k labels)
label-row k key v labels ne =
    ground (arith, eq_iff key k, eq_iff key "", label-put_label k key v labels)

or_else_assoc : (a b c : Option String) → or_else a (or_else b c) ≡ or_else (or_else a b) c
or_else_assoc (some v) b c = refl
or_else_assoc none b c = refl

label-label_rows :
    (k : String) (keys vals : List String) (labels : List (String × String))
    → k ≢ ""
    → label k (label_rows keys vals labels) ≡ or_else (last_row k keys vals) (label k labels)
unfolding label_rows last_row
label-label_rows k [] vals labels ne = refl
label-label_rows k (key ∷ keys) vals labels ne =
    label-label_rows k keys (rest vals) _ ne
    ∙ ap (or_else (last_row k keys (rest vals)))
        (label-row k (trim_space key) (trim_space (first vals)) labels ne)
    ∙ or_else_assoc (last_row k keys (rest vals)) _ (label k labels)

-- No key stands twice, and none is empty.
pub IsMap : List (String × String) → Type 0
IsMap [] = Unit
IsMap ((key, v) ∷ labels) = (key ≢ "") × (label key labels ≡ none) × IsMap labels

put_label-IsMap :
    (key v : String) (labels : List (String × String))
    → key ≢ ""
    → IsMap labels
    → IsMap (put_label key v labels)
unfolding put_label IsMap
put_label-IsMap key v [] ne m = (ne, unfold label in refl, tt)
put_label-IsMap key v ((other, u) ∷ labels) ne (a, b, m) = elim (Bool-cases (other == key)) [
  | inl e ↦ rw e (ne, subst (λ k. label k labels ≡ none) ((eq_iff other key).0 e) b, m)
  | inr e ↦ rw e (
    a,
    label-put_label other key v labels ∙ ground (arith, eq_iff other key, eq_iff key other),
    put_label-IsMap key v labels ne m,
  )
]

row-IsMap :
    (key v : String) (labels : List (String × String)) → IsMap labels → IsMap (row key v labels)
row-IsMap key v labels m = elim (Bool-cases (key == "")) [
  | inl e ↦ rw e m
  | inr e ↦ rw e (put_label-IsMap key v labels (λ q. ground (arith, eq_iff key "")) m)
]

label_rows-IsMap :
    (keys vals : List String) (labels : List (String × String))
    → IsMap labels
    → IsMap (label_rows keys vals labels)
unfolding label_rows
label_rows-IsMap [] vals labels m = m
label_rows-IsMap (key ∷ keys) vals labels m =
    label_rows-IsMap keys (rest vals) _
      (row-IsMap (trim_space key) (trim_space (first vals)) labels m)

or_else-none : (o : Option String) → or_else o none ≡ o
or_else-none (some v) = refl
or_else-none none = refl

-- The labels of a form are a map, in which a key that is not empty has the trimmed value of its
-- last row, and is missing if no row has it.
pub parse_labels-last_row :
    (form : Form)
    → IsMap (parse_labels form)
      × ((k : String)
          → k ≢ ""
          → label k (parse_labels form)
            ≡ last_row k (values "label_key" form) (values "label_value" form))
unfolding parse_labels
parse_labels-last_row form = (
  label_rows-IsMap (values "label_key" form) (values "label_value" form) [] (unfold IsMap in tt),
  λ k ne.
      label-label_rows k (values "label_key" form) (values "label_value" form) [] ne
      ∙ (unfold label in or_else-none _),
)
