-- ===== src/Config/Expand.antt =====
-- `expand_env_value` of nivasa-config/src/lib.rs. The source walks over the bytes of the value and
-- jumps behind a reference; here a count of bytes to skip goes along. The depth counts down from
-- nine, so that zero stands for a depth above eight.
use nivasa.Prelude.{
  leb, ◌==◌, if◌then◌else◌, Bool-cases, or_empty, first_some, length, All, All-map, Text, text_eq,
  get_text, utf8, utf8-ascii, ℕ, zero, suc, ◌+◌, ◌<◌, ◌≡◌, refl, ap, ◌∙◌, inl, inr, Bool, false,
  ◌&&◌, ◌||◌, Option, none, some, List, [], ◌∷◌, ◌++◌, map,
}
use mathlib.Core.Option
use nivasa.Config.{ConfigValues}

abbrev pub is_env_name_start : ℕ → Bool
is_env_name_start c = c == b'_' || (leb b'A' c && leb c b'Z') || (leb b'a' c && leb c b'z')

abbrev pub is_env_name_continue : ℕ → Bool
is_env_name_continue c = is_env_name_start c || (leb b'0' c && leb c b'9')

-- The bytes before a closing brace, if there is one.
abbrev pub braced : List ℕ → Option (List ℕ)
braced [] = none
braced (b ∷ bytes) =
    let rest = Option.map (λ name. b ∷ name) (braced bytes) in if b == b'}' then some [] else rest

abbrev pub take_name : List ℕ → List ℕ
take_name [] = []
take_name (b ∷ bytes) =
    let rest = take_name bytes in if is_env_name_continue b then b ∷ rest else []

-- A reference behind a dollar sign: the bytes of its name, and how many bytes it has.
unfoldable pub reference : List ℕ → Option (List ℕ × ℕ)
reference [] = none
reference (b ∷ bytes) =
    let in_braces = Option.map (λ name. (name, length name + 2)) (braced bytes) in
    let name = b ∷ take_name bytes in
    if b == b'{' then in_braces else if is_env_name_start b then some (name, length name) else none

-- `get` with the text that has the given bytes.
abbrev pub get_bytes : List ℕ → ConfigValues → Option Text
get_bytes name [] = none
get_bytes name ((key, value) ∷ values) =
    if text_eq (utf8 key) name then some value else get_bytes name values

module _ (process_env values : ConfigValues) where
  unfoldable pub lookup_env_value : List ℕ → Option Text
  lookup_env_value name = first_some (get_bytes name process_env) (get_bytes name values)

  -- What is pushed for the byte, and how many bytes behind it are used up. A byte that is pushed
  -- becomes the code point of its number.
  unfoldable pub resolve_byte : (Text → Text) → ℕ → List ℕ → Text × ℕ
  resolve_byte expand b bytes =
      let resolved : Text × ℕ = elim (reference bytes) [
        | none ↦ (b'$' ∷ [], 0)
        | some (name, used) ↦ (or_empty (Option.map expand (lookup_env_value name)), used)
      ] in
      if b == b'$' then resolved else (b ∷ [], 0)

  -- The loop over the bytes.
  unfoldable pub resolve_bytes : (Text → Text) → List ℕ → ℕ → Text
  resolve_bytes expand [] skip = []
  resolve_bytes expand (b ∷ bytes) (suc skip) = resolve_bytes expand bytes skip
  resolve_bytes expand (b ∷ bytes) zero =
      let (pushed, used) = resolve_byte expand b bytes in pushed ++ resolve_bytes expand bytes used

  unfoldable pub expand_env_value : ℕ → Text → Text
  expand_env_value zero value = value
  expand_env_value (suc depth) value = resolve_bytes (expand_env_value depth) (utf8 value) 0

abbrev pub top_depth : ℕ
top_depth = 9

unfoldable pub expand_env_values : ConfigValues → ConfigValues → ConfigValues
expand_env_values process_env values =
    map (λ (item : Text × Text). (item.0, expand_env_value process_env values top_depth item.1))
      values

-- Expanding keeps the keys.
pub get_text-expand_env_values :
    (process_env values : ConfigValues) (key : Text)
    → get_text key (expand_env_values process_env values)
      ≡ Option.map (expand_env_value process_env values top_depth) (get_text key values)
unfolding expand_env_values
get_text-expand_env_values process_env values key = each values
  where
    each :
        (some_values : ConfigValues)
        → get_text key (
            map
              (λ (item : Text × Text).
                (item.0, expand_env_value process_env values top_depth item.1))
              some_values)
          ≡ Option.map (expand_env_value process_env values top_depth) (get_text key some_values)
    each [] = refl
    each ((k, value) ∷ others) = elim (Bool-cases (text_eq k key)) [
      | inl same ↦ rw same refl
      | inr other ↦ rw other (each others)
    ]

-- A value of ASCII characters without a dollar sign.
abbrev pub IsPlain : Text → Type 0
IsPlain value = All (λ c. (c < 128) × ((c == b'$') ≡ false)) value

resolve_bytes-IsPlain :
    (process_env values : ConfigValues) (expand : Text → Text) (value : Text)
    → IsPlain value
    → resolve_bytes process_env values expand value 0 ≡ value
unfolding resolve_bytes resolve_byte
resolve_bytes-IsPlain process_env values expand [] plain = refl
resolve_bytes-IsPlain process_env values expand (c ∷ value) ((small, no_dollar), plain) =
    rw no_dollar (ap (λ l. c ∷ l) (resolve_bytes-IsPlain process_env values expand value plain))

-- A plain value stays as it is, at every depth.
pub expand_env_value-IsPlain :
    (process_env values : ConfigValues) (depth : ℕ) (value : Text)
    → IsPlain value
    → expand_env_value process_env values depth value ≡ value
unfolding expand_env_value
expand_env_value-IsPlain process_env values zero value plain = refl
expand_env_value-IsPlain process_env values (suc depth) value plain =
    ap
      (λ bytes.
        resolve_bytes process_env values (expand_env_value process_env values depth) bytes 0)
      (utf8-ascii value (All-map value (λ c h. h.0) plain))
    ∙ resolve_bytes-IsPlain process_env values (expand_env_value process_env values depth) value
        plain
