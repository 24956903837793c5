-- ===== src/Config/Schema.antt =====
-- `ConfigSchema`, and the checks of `ConfigModule` in nivasa-config/src/lib.rs.
use nivasa.Prelude.{
  if◌then◌else◌, Bool-cases, is_some, first_some, first_some-none, is_empty, All, append-eq-nil,
  Result, ok, err, Text, text_eq, text_eq_iff, trim, get_text, put_text, get_text-put_text,
  get_text-put_text_other, mem_text, keys, ◌≡◌, refl, sym, ap, ◌∙◌, subst, ◌≢◌, ◌↔◌, ◌⊎◌, inl, inr,
  true, false, ◌||◌, Option, none, some, List, [], ◌∷◌, ◌++◌, map,
}
use nivasa.Config.{ConfigValues}

pub data ConfigValidationIssue : Type 0 where
  missing_required_key : (key : Text) → ConfigValidationIssue
  invalid_value : (key value expected : Text) → ConfigValidationIssue

-- A schema is what its three functions return.
pub record ConfigSchema : Type 0 where
  pub required_keys : List Text
  pub defaults : List (Text × Text)
  pub validate : ConfigValues → List ConfigValidationIssue

-- The loop that collects the keys that are missing.
unfoldable pub missing_keys : ConfigValues → List Text → List Text → List Text
missing_keys loaded [] missing = missing
missing_keys loaded (required ∷ keys) missing =
    let key = trim required in
    let skipped = is_empty key || is_some (get_text key loaded) || mem_text key missing in
    missing_keys loaded keys (if skipped then missing else missing ++ (key ∷ []))

unfoldable pub collect_missing_required_key_issues :
    ConfigValues → List Text → List ConfigValidationIssue
collect_missing_required_key_issues loaded required_keys =
    map missing_required_key (missing_keys loaded required_keys [])

unfoldable pub validate_required_keys :
    ConfigValues → List Text → Result (List ConfigValidationIssue) (Unit {0})
validate_required_keys loaded required_keys =
    let issues = collect_missing_required_key_issues loaded required_keys in
    if is_empty issues then ok tt else err issues

-- `or_insert_with` for each default.
unfoldable pub merge_defaults : List (Text × Text) → ConfigValues → ConfigValues
merge_defaults [] merged = merged
merge_defaults ((key, value) ∷ defaults) merged =
    merge_defaults defaults
      (if is_some (get_text key merged) then merged else put_text key value merged)

unfoldable pub validate_schema :
    ConfigSchema → ConfigValues → Result (List ConfigValidationIssue) ConfigValues
validate_schema schema loaded =
    let merged = merge_defaults schema.defaults loaded in
    let issues =
      collect_missing_required_key_issues merged schema.required_keys ++ schema.validate merged in
    if is_empty issues then ok merged else err issues

first_some-found : (a b : Option Text) → is_some a ≡ true → first_some a b ≡ a
first_some-found none b h = cc
first_some-found (some t) b h = refl

is_some-false : (o : Option Text) → is_some o ≡ false → o ≡ none
is_some-false none h = refl
is_some-false (some t) h = cc

-- A default is taken for a key that has no value yet, the first one for it.
get_text-merge_defaults :
    (key : Text) (defaults : List (Text × Text)) (merged : ConfigValues)
    → get_text key (merge_defaults defaults merged)
      ≡ first_some (get_text key merged) (get_text key defaults)
unfolding merge_defaults
get_text-merge_defaults key [] merged = sym (first_some-none (get_text key merged))
get_text-merge_defaults key ((k, value) ∷ defaults) merged =
    elim (Bool-cases (is_some (get_text k merged))) [
      | inl has ↦ elim (Bool-cases (text_eq k key)) [
        | inl same ↦
            let known : is_some (get_text key merged) ≡ true =
              subst (λ t. is_some (get_text t merged) ≡ true) ((text_eq_iff k key).0 same) has in
            rw (has, same)
              (get_text-merge_defaults key defaults merged
                ∙ first_some-found (get_text key merged) (get_text key defaults) known
                ∙ sym (first_some-found (get_text key merged) (some value) known))
        | inr other ↦ rw (has, other) (get_text-merge_defaults key defaults merged)
      ]
      | inr lacks ↦ elim (Bool-cases (text_eq k key)) [
        | inl same ↦
            let equal : k ≡ key = (text_eq_iff k key).0 same in
            let put : get_text key (put_text k value merged) ≡ some value =
              subst (λ t. get_text t (put_text k value merged) ≡ some value) equal
                (get_text-put_text k value merged) in
            let absent : get_text key merged ≡ none =
              is_some-false _ (subst (λ t. is_some (get_text t merged) ≡ false) equal lacks) in
            rw (lacks, same)
              (get_text-merge_defaults key defaults (put_text k value merged)
                ∙ ap (λ o. first_some o (get_text key defaults)) put
                ∙ sym (ap (λ o. first_some o (some value)) absent))
        | inr other ↦
            rw (lacks, other)
              (get_text-merge_defaults key defaults (put_text k value merged)
                ∙ ap (λ o. first_some o (get_text key defaults))
                    (get_text-put_text_other k key value merged other))
      ]
    ]

-- A key that is blank, or has a value.
abbrev pub IsPresent : ConfigValues → Text → Type 0
IsPresent loaded key = (is_empty (trim key) ≡ true) ⊎ (is_some (get_text (trim key) loaded) ≡ true)

missing_keys-nonempty :
    (loaded : ConfigValues) (keys : List Text) (first_missing : Text) (missing : List Text)
    → missing_keys loaded keys (first_missing ∷ missing) ≢ []
unfolding missing_keys
missing_keys-nonempty loaded [] m missing = λ e. cc
missing_keys-nonempty loaded (required ∷ keys) m missing =
    elim (Bool-cases (
      is_empty (trim required)
      || is_some (get_text (trim required) loaded)
      || mem_text (trim required) (m ∷ missing))) [
        | inl skipped ↦ rw skipped (missing_keys-nonempty loaded keys m missing)
        | inr added ↦
            rw added (missing_keys-nonempty loaded keys m (missing ++ (trim required ∷ [])))
      ]

missing_keys_iff :
    (loaded : ConfigValues) (keys : List Text)
    → (missing_keys loaded keys [] ≡ []) ↔ All (IsPresent loaded) keys
unfolding missing_keys
missing_keys_iff loaded [] = (λ e. tt, λ h. refl)
missing_keys_iff loaded (required ∷ keys) =
    let rest = missing_keys_iff loaded keys in
    elim (Bool-cases (is_empty (trim required))) [
      | inl blank ↦ rw blank (λ e. (inl refl, rest.0 e), λ h. rest.1 h.1)
      | inr named ↦ elim (Bool-cases (is_some (get_text (trim required) loaded))) [
        | inl has ↦ rw (named, has) (λ e. (inr refl, rest.0 e), λ h. rest.1 h.1)
        | inr lacks ↦
            rw (named, lacks)
              (
                λ e. absurd (missing_keys-nonempty loaded keys (trim required) [] e),
                λ (h, hs). elim h [ inl k ↦ cc | inr k ↦ cc ],
              )
      ]
    ]

map-eq-nil : {A : Type 0} {B : Type 0} (f : A → B) (xs : List A) → (map f xs ≡ []) ↔ (xs ≡ [])
map-eq-nil f [] = (λ e. refl, λ e. refl)
map-eq-nil f (x ∷ xs) = (λ e. cc, λ e. cc)

-- `validate_schema` fills in the defaults of the schema: a key has its loaded value, or else its
-- first default. It accepts the result exactly when every required key is blank or has a value there
-- and the schema's own check finds nothing; otherwise it returns the issues, of which there is one.
pub validate_schema_lem :
    (schema : ConfigSchema) (loaded : ConfigValues)
    → (merged : ConfigValues) × ((key : Text)
        → get_text key merged ≡ first_some (get_text key loaded) (get_text key schema.defaults))
      × ((validate_schema schema loaded ≡ ok merged)
          ↔ (All (IsPresent merged) schema.required_keys × (schema.validate merged ≡ [])))
      × ((validate_schema schema loaded ≡ ok merged)
          ⊎ ((issues : List ConfigValidationIssue) × (validate_schema schema loaded ≡ err issues)
              × (issues ≢ [])))
unfolding validate_schema collect_missing_required_key_issues
validate_schema_lem schema loaded =
    let merged = merge_defaults schema.defaults loaded in
    let issues =
      map missing_required_key (missing_keys merged schema.required_keys [])
      ++ schema.validate merged in
    let both =
      append-eq-nil (map missing_required_key (missing_keys merged schema.required_keys []))
        (schema.validate merged) in
    let missing = map-eq-nil missing_required_key (missing_keys merged schema.required_keys []) in
    let present = missing_keys_iff merged schema.required_keys in
    let verdict = verdict_lem merged issues in
    (
      merged,
      λ key. get_text-merge_defaults key schema.defaults loaded,
      (
        λ e.
            let (nothing, valid) = both.0 (verdict.0.0 e) in (present.0 (missing.0 nothing), valid),
        λ (all_present, valid). verdict.0.1 (both.1 (missing.1 (present.1 all_present), valid)),
      ),
      verdict.1,
    )
  where
    verdict_lem :
        (merged : ConfigValues) (issues : List ConfigValidationIssue)
        → (((if is_empty issues then ok merged else err issues) ≡ ok merged) ↔ (issues ≡ []))
          × (((if is_empty issues then ok merged else err issues) ≡ ok merged)
              ⊎ ((others : List ConfigValidationIssue) × ((if is_empty issues
                      then ok merged
                      else err issues)
                    ≡ err others)
                  × (others ≢ [])))
    verdict_lem merged [] = ((λ e. refl, λ e. refl), inl refl)
    verdict_lem merged (i ∷ issues) = ((λ e. cc, λ e. cc), inr (i ∷ issues, refl, λ e. cc))
