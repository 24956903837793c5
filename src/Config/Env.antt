-- ===== src/Config/Env.antt =====
-- The lines of `.env` files: `parse_env_line` and `load_env_file` of nivasa-config/src/lib.rs.
use nivasa.Prelude.{
  leb, ◌==◌, if◌then◌else◌, Bool-cases, first_some, and_then, first_some-none, first_some_assoc,
  length, is_empty, first, pop, Text, codes, text_eq, text_eq_iff, ends_with, starts_with, split,
  trim, get_text, put_text, get_text-put_text, get_text-put_text_other, strip_text, utf8, ℕ, ◌≡◌,
  refl, sym, ap, ◌∙◌, subst, inl, inr, Bool, false, ◌&&◌, ◌||◌, Option, none, some, List, [], ◌∷◌,
  ◌++◌,
}
use mathlib.Core.Option
use nivasa.Config.{ConfigValues}

-- `split_once`.
abbrev pub split_once : ℕ → Text → Option (Text × Text)
split_once c [] = none
split_once c (x ∷ s) =
    let rest = Option.map (λ (found : Text × Text). (x ∷ found.0, found.1)) (split_once c s) in
    if x == c then some ([], s) else rest

-- The value between its first and last characters.
abbrev pub inner : Text → Text
inner [] = []
inner (c ∷ s) = pop s

abbrev pub is_quote : ℕ → Bool
is_quote c = c == b'"' || c == b'\''

-- `value` without the quotes around it.
unfoldable pub unquote : Text → Text
unquote value =
    let quoted : Bool = elim (first value) [
      | none ↦ false
      | some c ↦ is_quote c && ends_with c value
    ] in
    if leb 2 (length (utf8 value)) && quoted then inner value else value

-- A key that is not blank, with its value.
abbrev pub key_value : Text × Text → Option (Text × Text)
key_value (key, value) = if is_empty (trim key) then none else some (trim key, unquote (trim value))

unfoldable pub parse_env_line : Text → Option (Text × Text)
parse_env_line line =
    let trimmed = trim line in
    let assignment : Text = elim (strip_text (codes "export ") trimmed) [
      | none ↦ trimmed
      | some rest ↦ rest
    ] in
    if is_empty trimmed || starts_with b'#' trimmed
    then none
    else and_then (split_once b'=' assignment) key_value

abbrev pub newline : ℕ
newline = 10

abbrev pub carriage_return : ℕ
carriage_return = 13

-- `str::lines` for the parts between newlines: each loses a carriage return at its end, but for the
-- last, which is left out if it is empty.
abbrev pub lines_of : List Text → List Text
lines_of [] = []
lines_of (last_line ∷ []) = if is_empty last_line then [] else last_line ∷ []
lines_of (line ∷ next ∷ parts) =
    (if ends_with carriage_return line then pop line else line) ∷ lines_of (next ∷ parts)

abbrev pub found_pairs : List Text → List (Text × Text)
found_pairs [] = []
found_pairs (line ∷ lines) =
    let rest = found_pairs lines in
    elim (parse_env_line line) [ none ↦ rest | some pair ↦ pair ∷ rest ]

-- The pairs of a file, in its order.
unfoldable pub env_pairs : Text → List (Text × Text)
env_pairs contents = found_pairs (lines_of (split newline contents))

-- `insert` for each pair, which is also `extend`.
unfoldable pub extend : ConfigValues → List (Text × Text) → ConfigValues
extend loaded [] = loaded
extend loaded ((key, value) ∷ pairs) = extend (put_text key value loaded) pairs

-- The last of the values for a key.
abbrev pub last_value : Text → List (Text × Text) → Option Text
last_value key [] = none
last_value key ((k, value) ∷ pairs) =
    first_some (last_value key pairs) (if text_eq k key then some value else none)

-- Extending puts the last value of a key before what the map has.
pub get_text-extend :
    (key : Text) (loaded : ConfigValues) (pairs : List (Text × Text))
    → get_text key (extend loaded pairs) ≡ first_some (last_value key pairs) (get_text key loaded)
unfolding extend
get_text-extend key loaded [] = refl
get_text-extend key loaded ((k, value) ∷ pairs) =
    get_text-extend key (put_text k value loaded) pairs
    ∙ ap (first_some (last_value key pairs)) put
    ∙ sym (first_some_assoc (last_value key pairs) _ (get_text key loaded))
  where
    put :
        get_text key (put_text k value loaded)
        ≡ first_some (if text_eq k key then some value else none) (get_text key loaded)
    put = elim (Bool-cases (text_eq k key)) [
      | inl same ↦ rw same (
          subst (λ t. get_text t (put_text k value loaded) ≡ some value)
            ((text_eq_iff k key).0 same) (get_text-put_text k value loaded))
      | inr other ↦ rw other (get_text-put_text_other k key value loaded other)
    ]

-- Each key stands once.
abbrev pub AllOnce : ConfigValues → Type 0
AllOnce [] = Unit
AllOnce ((key, value) ∷ values) = (get_text key values ≡ none) × AllOnce values

text_eq-swap : (s t : Text) → text_eq s t ≡ false → text_eq t s ≡ false
text_eq-swap s t h = elim (Bool-cases (text_eq t s)) [
  | inl e ↦ cc ((text_eq_iff s t).1 (sym ((text_eq_iff t s).0 e)), h)
  | inr e ↦ e
]

put_text-AllOnce :
    (key value : Text) (values : ConfigValues)
    → AllOnce values
    → AllOnce (put_text key value values)
put_text-AllOnce key value [] once = (refl, tt)
put_text-AllOnce key value ((k, v) ∷ values) (absent, once) = elim (Bool-cases (text_eq k key)) [
  | inl same ↦
      rw same (subst (λ t. get_text t values ≡ none) ((text_eq_iff k key).0 same) absent, once)
  | inr other ↦ rw other (
    get_text-put_text_other key k value values (text_eq-swap k key other) ∙ absent,
    put_text-AllOnce key value values once,
  )
]

pub extend-AllOnce :
    (loaded : ConfigValues) (pairs : List (Text × Text))
    → AllOnce loaded
    → AllOnce (extend loaded pairs)
unfolding extend
extend-AllOnce loaded [] once = once
extend-AllOnce loaded ((key, value) ∷ pairs) once =
    extend-AllOnce (put_text key value loaded) pairs (put_text-AllOnce key value loaded once)

-- In a map the last value of a key is its only one.
pub last_value-AllOnce :
    (key : Text) (values : ConfigValues)
    → AllOnce values
    → last_value key values ≡ get_text key values
last_value-AllOnce key [] once = refl
last_value-AllOnce key ((k, v) ∷ values) (absent, once) = elim (Bool-cases (text_eq k key)) [
  | inl same ↦ rw same (
      ap (λ o. first_some o (some v))
        (last_value-AllOnce key values once
          ∙ subst (λ t. get_text t values ≡ none) ((text_eq_iff k key).0 same) absent))
  | inr other ↦
      rw other (first_some-none (last_value key values) ∙ last_value-AllOnce key values once)
]

-- The last value in a list of pairs is what the map of the pairs has.
pub last_value-extend :
    (key : Text) (pairs : List (Text × Text))
    → last_value key (extend [] pairs) ≡ last_value key pairs
last_value-extend key pairs =
    last_value-AllOnce key (extend [] pairs) (extend-AllOnce [] pairs tt)
    ∙ get_text-extend key [] pairs
    ∙ first_some-none (last_value key pairs)

pub last_value-append :
    (key : Text) (pairs others : List (Text × Text))
    → last_value key (pairs ++ others) ≡ first_some (last_value key others) (last_value key pairs)
last_value-append key [] others = sym (first_some-none (last_value key others))
last_value-append key ((k, value) ∷ pairs) others =
    ap (λ o. first_some o (if text_eq k key then some value else none))
      (last_value-append key pairs others)
    ∙ first_some_assoc (last_value key others) (last_value key pairs)
        (if text_eq k key then some value else none)
