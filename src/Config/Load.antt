-- ===== src/Config/Load.antt =====
-- `ConfigModule::load_env` of nivasa-config/src/lib.rs. Reading a file and the variables of the
-- process are parameters.
use nivasa.Prelude.{
  if◌then◌else◌, first_some, first_some-none, first_some_assoc, is_empty, Result, ◌>>=◌, map_ok,
  Result-cases, ok, err, Text, get_text, ◌≡◌, refl, sym, ap, ◌∙◌, ◌⊎◌, inl, inr, Bool, true, false,
  ◌||◌, Option, List, [], ◌∷◌, ◌++◌, arith,
}
use mathlib.Core.Option
use nivasa.Config.{ConfigOptions, ConfigValues}
use nivasa.Config.Env.{
  env_pairs, extend, last_value, get_text-extend, last_value-extend, last_value-append,
}
use nivasa.Config.Expand.{
  expand_env_value, expand_env_values, top_depth, get_text-expand_env_values,
}

module _ {IoError : Type 0} (read_to_string : Text → Result IoError Text)
    (process_env : ConfigValues) where
  unfoldable pub load_env_file : Text → Result IoError ConfigValues
  load_env_file path = do contents ← read_to_string path; ok (extend [] (env_pairs contents))

  -- The loop over the paths.
  unfoldable pub load_env_files : ConfigValues → List Text → Result IoError ConfigValues
  load_env_files loaded [] = ok loaded
  load_env_files loaded (path ∷ paths) = do
    values ← load_env_file path
    load_env_files (extend loaded values) paths

  -- The values of the files with what the options and the process make of them.
  unfoldable pub complete : Bool → ConfigValues → ConfigValues
  complete expand_variables loaded =
      extend (if expand_variables then expand_env_values process_env loaded else loaded) process_env

  unfoldable pub load_env : ConfigOptions → Result IoError ConfigValues
  load_env options =
      let loaded =
        map_ok (complete options.expand_variables) (load_env_files [] options.env_file_paths) in
      if options.ignore_env_file || is_empty options.env_file_paths then ok [] else loaded

  -- The pairs of all files, in their order.
  abbrev pub all_pairs : List Text → Result IoError (List (Text × Text))
  all_pairs [] = ok []
  all_pairs (path ∷ paths) = do
    contents ← read_to_string path
    rest ← all_pairs paths
    ok (env_pairs contents ++ rest)

  -- What the files say about a key, when the values are expanded if the options ask for it.
  abbrev pub shown : Bool → ConfigValues → Option Text → Option Text
  shown expand_variables loaded found =
      if expand_variables
      then Option.map (expand_env_value process_env loaded top_depth) found
      else found

  -- Either some file cannot be read in both, or the map has the last values of the pairs.
  abbrev Loads : List Text → ConfigValues → Type 0
  Loads paths loaded =
      ((e : IoError) × (all_pairs paths ≡ err e) × (load_env_files loaded paths ≡ err e))
      ⊎ ((pairs : List (Text × Text)) × (files : ConfigValues) × (all_pairs paths ≡ ok pairs)
          × (load_env_files loaded paths ≡ ok files)
          × ((key : Text)
              → get_text key files ≡ first_some (last_value key pairs) (get_text key loaded)))

  load_env_files_lem : (paths : List Text) (loaded : ConfigValues) → Loads paths loaded
  unfolding load_env_files load_env_file
  load_env_files_lem [] loaded = inr ([], loaded, refl, refl, λ key. refl)
  load_env_files_lem (path ∷ paths) loaded = elim (Result-cases (read_to_string path)) [
    | inr (e, r) ↦ inl (e, rw r refl, rw r refl)
    | inl (contents, r) ↦
        let values = extend [] (env_pairs contents) in
        elim (load_env_files_lem paths (extend loaded values)) [
          | inl (e, a, l) ↦ inl (e, rw r (rw a refl), rw r l)
          | inr (pairs, files, a, l, g) ↦ inr (
            env_pairs contents ++ pairs,
            files,
            rw r (rw a refl),
            rw r l,
            λ key. g key ∙ later_first key loaded (env_pairs contents) pairs,
          )
        ]
  ]
    where
      later_first :
          (key : Text) (loaded : ConfigValues) (own pairs : List (Text × Text))
          → first_some (last_value key pairs) (get_text key (extend loaded (extend [] own)))
            ≡ first_some (last_value key (own ++ pairs)) (get_text key loaded)
      later_first key loaded own pairs =
          ap (first_some (last_value key pairs)) (
            get_text-extend key loaded (extend [] own)
            ∙ ap (λ o. first_some o (get_text key loaded)) (last_value-extend key own))
          ∙ sym (first_some_assoc (last_value key pairs) (last_value key own) (get_text key loaded))
          ∙ ap (λ o. first_some o (get_text key loaded)) (sym (last_value-append key own pairs))

  get_text-complete :
      (expand_variables : Bool) (files : ConfigValues) (key : Text)
      → get_text key (complete expand_variables files)
        ≡ first_some
            (last_value key process_env)
            (shown expand_variables files (get_text key files))
  unfolding complete
  get_text-complete true files key =
      get_text-extend key (expand_env_values process_env files) process_env
      ∙ ap (first_some (last_value key process_env))
          (get_text-expand_env_values process_env files key)
  get_text-complete false files key = get_text-extend key files process_env

  -- With files to read, `load_env` either fails with the error of a file, or gives for each key the
  -- value of the process, and otherwise the last value in the files, taken in the order of the
  -- options; that one is expanded, if the options ask for it, with what the files hold.
  pub load_env_lem :
      (options : ConfigOptions)
      → options.ignore_env_file ≡ false
      → is_empty options.env_file_paths ≡ false
      → ((e : IoError) × (all_pairs options.env_file_paths ≡ err e) × (load_env options ≡ err e))
        ⊎ ((pairs : List (Text × Text)) × (files : ConfigValues) × (loaded : ConfigValues)
            × (all_pairs options.env_file_paths ≡ ok pairs)
            × (load_env options ≡ ok loaded)
            × ((key : Text) → get_text key files ≡ last_value key pairs)
            × ((key : Text)
                → get_text key loaded
                  ≡ first_some
                      (last_value key process_env)
                      (shown options.expand_variables files (last_value key pairs))))
  unfolding load_env
  load_env_lem options reads listed = elim (load_env_files_lem options.env_file_paths []) [
    | inl (e, a, l) ↦ inl (e, a, opened ∙ ap (map_ok (complete options.expand_variables)) l)
    | inr (pairs, files, a, l, g) ↦
        let same = λ (key : Text). g key ∙ first_some-none (last_value key pairs) in
        inr (
          pairs,
          files,
          complete options.expand_variables files,
          a,
          opened ∙ ap (map_ok (complete options.expand_variables)) l,
          same,
          λ key.
              get_text-complete options.expand_variables files key
              ∙ ap
                  (λ o.
                    first_some (last_value key process_env)
                      (shown options.expand_variables files o))
                  (same key),
        )
  ]
    where
      both : (a b : Bool) → a ≡ false → b ≡ false → (a || b) ≡ false
      both a b h k = ground arith

      opened :
          load_env options
          ≡ map_ok (complete options.expand_variables) (load_env_files [] options.env_file_paths)
      opened =
          ap
            (λ b.
              if b
              then ok []
              else map_ok (complete options.expand_variables)
                  (load_env_files [] options.env_file_paths))
            (both options.ignore_env_file (is_empty options.env_file_paths) reads listed)
