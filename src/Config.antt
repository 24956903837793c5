-- ===== src/Config.antt =====
-- The options, the errors and the service of nivasa-config/src/lib.rs.
pub mod Env
pub mod Expand
pub mod Load
pub mod Schema
pub mod Bootstrap
use nivasa.Prelude.{
  and_then, ltb, leb, ◌==◌, if◌then◌else◌, ==_iff, ==_refl, Bool-cases, Option-cases,
  some-injective, is_some, is_none, first_some, length, is_empty, first, last, pop, pop-snoc,
  get_elem?, any, all, find, keep, replicate, length-append, All, All-append, All-map,
  append-eq-nil, flat_map-eq-nil, Result, ◌>>=◌, map_err, Result-cases, >>=-eq-ok, ok-injective, ok,
  err, Text, codes, text_eq, text_eq_iff, text_eq_refl, strip_prefix, ends_with, starts_with,
  upper_char, to_ascii_uppercase, push_head, split, join, join_with, Lacks, split_whole,
  split-append, push_head-All, split-Lacks, keep-nonempty, is_whitespace, drop_while, drop_end,
  trim_start_matches, trim_end_matches, trim_matches, trim, ends_without, begins_without,
  drop_while_id, drop_end_id, last-drop_end, first-drop_while, last-append, trim_id, cmp_text,
  get_text, put_text, get_text-put_text, get_text-put_text_other, join-split, strip_text,
  strip_text-append, strip_text-eq-some, mem_text, mem_text-append, utf8_char, utf8, Below,
  insert_by, sort_by, IsSortedBy, insert_by-perm, sort_by-perm, IsPreorder, sort_by-IsSortedBy, mem,
  insert_set, remove_set, remove_set_fresh, remove_set_head, IsDistinct, lookup, insert_map, keys,
  mem-keys, lookup-insert_map, remove_map, adjust_map, keys-adjust_map, IsDistinct-remove_map,
  remove_map-adjust_map, count_outside, count_outside-le, count_outside-lt, Run, and_run, done,
  fail, and_run-eq-done, and_run-ne-none, insert_by-cases, length-sort_by, All-sort_by, sort_by-map,
  mem-sort_by, lookup-sort_by, lookup-map, length-map, ℕ, zero, suc, ◌+◌, ◌-◌, ◌*◌, ◌≤◌, ◌<◌,
  compare, Ordering, ◌≡◌, refl, sym, ap, ◌∙◌, subst, ◌≢◌, ◌↔◌, ◌⊎◌, inl, inr, Bool, true, false,
  ◌&&◌, ◌||◌, not, Option, none, some, List, [], ◌∷◌, ◌++◌, map, arith,
}
use mathlib.Core.Option

pub record ConfigOptions : Type 0 where
  pub is_global : Bool
  pub env_file_paths : List Text
  pub ignore_env_file : Bool
  pub expand_variables : Bool

unfoldable pub new : ConfigOptions
new = record {
  is_global = false;
  env_file_paths = [];
  ignore_env_file = false;
  expand_variables = false;
}

abbrev pub normalize_env_file_path : Text → Text
normalize_env_file_path path = trim path

unfoldable pub with_env_file_path : ConfigOptions → Text → ConfigOptions
with_env_file_path self path =
    let normal = normalize_env_file_path path in
    if is_empty normal
    then self
    else record self { env_file_paths = self.env_file_paths ++ (normal ∷ []) }

unfoldable pub with_env_file_paths : ConfigOptions → List Text → ConfigOptions
with_env_file_paths self paths = record self {
  env_file_paths = keep (λ path. not (is_empty path)) (map normalize_env_file_path paths);
}

unfoldable pub with_config_global : ConfigOptions → Bool → ConfigOptions
with_config_global self is_global = record self { is_global = is_global }

unfoldable pub with_ignore_env_file : ConfigOptions → Bool → ConfigOptions
with_ignore_env_file self ignore_env_file = record self { ignore_env_file = ignore_env_file }

unfoldable pub with_expand_variables : ConfigOptions → Bool → ConfigOptions
with_expand_variables self expand_variables = record self { expand_variables = expand_variables }

pub data ConfigException : Type 0 where
  missing_key : (key : Text) → ConfigException

-- The values of a `ConfigService`, and of a loaded configuration.
abbrev pub ConfigValues : Type 0
ConfigValues = List (Text × Text)

unfoldable pub get_raw : ConfigValues → Text → Option Text
get_raw self key = get_text key self

-- `get` with the `FromStr` of the type asked for.
unfoldable pub get_parsed : {A : Type 0} → (Text → Option A) → ConfigValues → Text → Option A
get_parsed from_str self key = and_then (get_raw self key) from_str

unfoldable pub get_or_default : {A : Type 0} → (Text → Option A) → ConfigValues → Text → A → A
get_or_default from_str self key default = elim (get_parsed from_str self key) [
  | none ↦ default
  | some value ↦ value
]

unfoldable pub get_or_throw : ConfigValues → Text → Result ConfigException Text
get_or_throw self key = elim (get_raw self key) [
  | none ↦ err (missing_key key)
  | some value ↦ ok value
]
