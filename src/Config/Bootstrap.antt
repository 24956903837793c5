-- ===== src/Config/Bootstrap.antt =====
-- The dynamic module of nivasa-config/src/lib.rs. The identifiers of `ConfigOptionsProvider` and
-- `ConfigService`, and the text of an input error, are parameters.
use nivasa.Prelude.{
  Result, ◌>>=◌, map_ok, map_err, Result-cases, ok, err, Text, codes, join_with, ℕ, ◌≡◌, refl, ◌⊎◌,
  inl, inr, List, [], ◌∷◌, ◌++◌, map,
}
use nivasa.Core.Modules.{
  DynamicModule, empty_metadata, with_exports, dynamic_module, dynamic_with_providers,
  dynamic_with_global, with_pre_bootstrap, run_pre_bootstrap,
}
use nivasa.Config.{ConfigOptions, ConfigValues}
use nivasa.Config.Load.{load_env}
use nivasa.Config.Schema.{
  ConfigSchema, ConfigValidationIssue, missing_required_key, invalid_value, validate_schema,
}

pub data ConfigBootstrapError : Type 0 where
  load_failed validation_failed : (message : Text) → ConfigBootstrapError

-- `Display` of an issue.
unfoldable pub issue_text : ConfigValidationIssue → Text
issue_text (missing_required_key key) = codes "missing required config key: " ++ key
issue_text (invalid_value key value expected) =
    codes "invalid config value for "
    ++ (key ++ (codes ": " ++ (value ++ (codes " (" ++ (expected ++ codes ")")))))

-- `Display` of the error with the issues.
unfoldable pub validation_error_text : List ConfigValidationIssue → Text
validation_error_text [] = codes "config validation failed"
validation_error_text (issue ∷ issues) = join_with (codes "; ") (map issue_text (issue ∷ issues))

module _ (options_provider config_service : ℕ) where
  unfoldable pub root_dynamic_module : ConfigOptions → DynamicModule
  root_dynamic_module options =
      dynamic_with_global
        (dynamic_with_providers (dynamic_module (with_exports empty_metadata (config_service ∷ [])))
          (options_provider ∷ config_service ∷ []))
        options.is_global

  module _ {IoError : Type 0} (io_text : IoError → Text)
      (read_to_string : Text → Result IoError Text) (process_env : ConfigValues) where
    -- The module with the check of the loaded values as its hook.
    unfoldable pub root_with_check : ConfigSchema → ConfigOptions → ConfigValues → DynamicModule
    root_with_check schema options loaded =
        with_pre_bootstrap (root_dynamic_module options)
          (map_err validation_error_text (map_ok (λ merged. tt) (validate_schema schema loaded)))

    unfoldable pub for_root_with_schema :
        ConfigSchema → ConfigOptions → Result ConfigBootstrapError DynamicModule
    for_root_with_schema schema options = do
      loaded ← map_err (λ e. load_failed (io_text e)) (load_env read_to_string process_env options)
      checked ←
          map_err validation_failed (run_pre_bootstrap (root_with_check schema options loaded))
      ok (root_with_check schema options loaded)

    -- The module is made exactly when the files load and the schema accepts what they give; an error
    -- of a file is reported as a load failure, and issues with the schema as a validation failure.
    pub for_root_with_schema_lem :
        (schema : ConfigSchema) (options : ConfigOptions)
        → ((e : IoError) × (load_env read_to_string process_env options ≡ err e)
            × (for_root_with_schema schema options ≡ err (load_failed (io_text e))))
          ⊎ ((loaded : ConfigValues) × (load_env read_to_string process_env options ≡ ok loaded)
              × (((issues : List ConfigValidationIssue) × (validate_schema schema loaded
                      ≡ err issues)
                    × (for_root_with_schema schema options
                        ≡ err (validation_failed (validation_error_text issues))))
                  ⊎ ((merged : ConfigValues) × (validate_schema schema loaded ≡ ok merged)
                      × (for_root_with_schema schema options
                          ≡ ok (root_with_check schema options loaded)))))
    unfolding for_root_with_schema root_with_check run_pre_bootstrap with_pre_bootstrap
    for_root_with_schema_lem schema options =
        elim (Result-cases (load_env read_to_string process_env options)) [
          | inr (e, l) ↦ inl (e, l, rw l refl)
          | inl (loaded, l) ↦ elim (Result-cases (validate_schema schema loaded)) [
            | inr (issues, v) ↦ inr (loaded, l, inl (issues, v, rw l (rw v refl)))
            | inl (merged, v) ↦ inr (loaded, l, inr (merged, v, rw l (rw v refl)))
          ]
        ]
