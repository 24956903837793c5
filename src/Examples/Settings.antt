-- ===== src/Examples/Settings.antt =====
-- Tests of the configuration, and instances of its theorems: two files and the process.
use nivasa.Prelude.{
  if◌then◌else◌, first_some, All, Result, ok, err, Text, codes, text_eq, is_whitespace, get_text,
  ◌≡◌, refl, ◌≢◌, ◌↔◌, ◌⊎◌, true, false, none, some, List, [], ◌∷◌, ◌++◌,
}
use nivasa.Config.{ConfigOptions, ConfigValues}
use nivasa.Config.Env.{parse_env_line, unquote, env_pairs, extend, last_value}
use nivasa.Config.Expand.{
  expand_env_value, resolve_bytes, resolve_byte, reference, lookup_env_value, expand_env_values,
}
use nivasa.Config.Load.{
  load_env, load_env_file, load_env_files, complete, all_pairs, shown, load_env_lem,
}
use nivasa.Config.Schema.{
  ConfigSchema, ConfigValidationIssue, missing_required_key, validate_schema, merge_defaults,
  missing_keys, collect_missing_required_key_issues, IsPresent, validate_schema_lem,
}

parses_export : parse_env_line (codes " export NAME = 'a b' ") ≡ some (codes "NAME", codes "a b")
unfolding parse_env_line unquote is_whitespace
parses_export = refl

parses_comment : parse_env_line (codes "# NAME=1") ≡ none
unfolding parse_env_line unquote is_whitespace
parses_comment = refl

abbrev environment : ConfigValues
environment = (codes "HOST", codes "live") ∷ []

abbrev read : Text → Result Text Text
read path =
    if text_eq path (codes "a")
    then ok (codes "HOST=x" ++ (10 ∷ codes "URL=$HOST/p" ++ (10 ∷ codes "N=1")))
    else if text_eq path (codes "b")
    then ok (codes "N=${M}2" ++ (13 ∷ 10 ∷ codes "M=7"))
    else err path

abbrev options : ConfigOptions
options = record {
  is_global = false;
  env_file_paths = codes "a" ∷ codes "b" ∷ [];
  ignore_env_file = false;
  expand_variables = true;
}

loads :
    load_env read environment options
    ≡ ok (
        (codes "HOST", codes "live")
        ∷ (codes "URL", codes "live/p")
        ∷ (codes "N", codes "72")
        ∷ (codes "M", codes "7")
        ∷ [])
unfolding load_env load_env_files load_env_file complete parse_env_line unquote is_whitespace
    env_pairs extend expand_env_values expand_env_value resolve_bytes resolve_byte reference
    lookup_env_value
loads = refl

-- The variables of the process are left out as well.
ignores : load_env read environment (record options { ignore_env_file = true }) ≡ ok []
unfolding load_env
ignores = refl

-- A character beyond ASCII becomes one character for each of its bytes.
breaks_accents : expand_env_value [] [] 9 (233 ∷ []) ≡ 195 ∷ 169 ∷ []
unfolding expand_env_value resolve_bytes resolve_byte reference
breaks_accents = refl

load_env_lem_example :
    ((e : Text) × (all_pairs read environment options.env_file_paths ≡ err e)
      × (load_env read environment options ≡ err e))
    ⊎ ((pairs : List (Text × Text)) × (files : ConfigValues) × (loaded : ConfigValues) × (all_pairs
            read environment options.env_file_paths
          ≡ ok pairs)
        × (load_env read environment options ≡ ok loaded)
        × ((key : Text) → get_text key files ≡ last_value key pairs)
        × ((key : Text)
            → get_text key loaded
              ≡ first_some
                  (last_value key environment)
                  (shown read environment true files (last_value key pairs))))
load_env_lem_example = load_env_lem read environment options refl refl

abbrev schema : ConfigSchema
schema = record {
  required_keys = codes "HOST" ∷ codes " PORT " ∷ [];
  defaults = (codes "PORT", codes "80") ∷ (codes "HOST", codes "none") ∷ [];
  validate = λ loaded. [];
}

fills_port :
    validate_schema schema environment
    ≡ ok ((codes "HOST", codes "live") ∷ (codes "PORT", codes "80") ∷ [])
unfolding validate_schema merge_defaults collect_missing_required_key_issues missing_keys
    is_whitespace
fills_port = refl

misses_port :
    validate_schema (record schema { defaults = [] }) environment
    ≡ err (missing_required_key (codes "PORT") ∷ [])
unfolding validate_schema merge_defaults collect_missing_required_key_issues missing_keys
    is_whitespace
misses_port = refl

validate_schema_lem_example :
    (merged : ConfigValues) × ((key : Text)
      → get_text key merged ≡ first_some (get_text key environment) (get_text key schema.defaults))
    × ((validate_schema schema environment ≡ ok merged)
        ↔ (All (IsPresent merged) schema.required_keys × (schema.validate merged ≡ [])))
    × ((validate_schema schema environment ≡ ok merged)
        ⊎ ((issues : List ConfigValidationIssue) × (validate_schema schema environment ≡ err issues)
            × (issues ≢ [])))
validate_schema_lem_example = validate_schema_lem schema environment
