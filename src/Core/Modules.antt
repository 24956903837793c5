-- ===== src/Core/Modules.antt =====
-- The module metadata, dynamic modules and the module registry of nivasa-core/src/module/mod.rs,
-- dynamic.rs and registry.rs: registration and the sources that a module imports from. A `TypeId` is
-- a number. `expect` on a module that is not registered gives no answer, `none`.
pub mod Sources
pub mod Surface
pub mod Exports
pub mod Total
pub mod Imports
pub mod Controllers
use nivasa.Prelude.{
  ltb, leb, ◌==◌, if◌then◌else◌, ==_iff, ==_refl, Bool-cases, Option-cases, is_some, is_none,
  length, is_empty, first, last, pop, pop-snoc, get_elem?, any, all, find, keep, replicate,
  length-append, All, All-append, All-map, Result, ◌>>=◌, map_err, Result-cases, >>=-eq-ok,
  ok-injective, ok, err, Text, codes, text_eq, text_eq_iff, text_eq_refl, strip_prefix, ends_with,
  starts_with, upper_char, to_ascii_uppercase, split, join, join_with, Lacks, split_whole,
  split-append, push_head-All, split-Lacks, keep-nonempty, is_whitespace, drop_while, drop_end,
  trim_start_matches, trim_end_matches, trim_matches, trim, ends_without, begins_without,
  drop_while_id, drop_end_id, last-drop_end, first-drop_while, last-append, trim_id, cmp_text,
  Below, insert_by, sort_by, IsSortedBy, insert_by-perm, sort_by-perm, IsPreorder,
  sort_by-IsSortedBy, mem, insert_set, remove_set, remove_set_fresh, remove_set_head, lookup,
  insert_map, keys, mem-keys, lookup-insert_map, count_outside, count_outside-le, count_outside-lt,
  Run, and_run, done, fail, and_run-eq-done, ℕ, zero, suc, ◌+◌, ◌-◌, ◌*◌, ◌≤◌, ◌<◌, compare,
  Ordering, ◌≡◌, refl, sym, ap, ◌∙◌, subst, ◌≢◌, ◌↔◌, ◌⊎◌, inl, inr, Bool, true, false, ◌&&◌, ◌||◌,
  not, Option, none, some, List, [], ◌∷◌, ◌++◌, map, arith,
}

pub record ModuleMetadata : Type 0 where
  pub imports : List ℕ
  pub providers : List ℕ
  pub controllers : List ℕ
  pub exports : List ℕ
  pub middlewares : List ℕ
  pub is_global : Bool

-- The function of `with_pre_bootstrap` is what it returns.
pub record DynamicModule : Type 0 where
  pub metadata : ModuleMetadata
  pub dynamic_providers : List ℕ
  pub pre_bootstrap : Option (Result Text (Unit {0}))

pub record ModuleEntry : Type 0 where
  pub type_id : ℕ
  pub type_name : Text
  pub metadata : ModuleMetadata

pub data ModuleRegistryError : Type 0 where
  missing_import : (module_name : Text) (missing : ℕ) → ModuleRegistryError
  invalid_export : (module_name : Text) (exported : ℕ) → ModuleRegistryError
  circular_import : (module_name cycle : Text) → ModuleRegistryError

abbrev pub ModuleRegistry : Type 0
ModuleRegistry = List (ℕ × ModuleEntry)

abbrev pub empty_metadata : ModuleMetadata
empty_metadata = record {
  imports = [];
  providers = [];
  controllers = [];
  exports = [];
  middlewares = [];
  is_global = false;
}

unfoldable pub with_imports : ModuleMetadata → List ℕ → ModuleMetadata
with_imports self imports = record self { imports = imports }

unfoldable pub with_providers : ModuleMetadata → List ℕ → ModuleMetadata
with_providers self providers = record self { providers = providers }

unfoldable pub with_controllers : ModuleMetadata → List ℕ → ModuleMetadata
with_controllers self controllers = record self { controllers = controllers }

unfoldable pub with_exports : ModuleMetadata → List ℕ → ModuleMetadata
with_exports self exports = record self { exports = exports }

unfoldable pub with_middlewares : ModuleMetadata → List ℕ → ModuleMetadata
with_middlewares self middlewares = record self { middlewares = middlewares }

unfoldable pub with_global : ModuleMetadata → Bool → ModuleMetadata
with_global self is_global = record self { is_global = is_global }

-- The methods of `DynamicModule`.
unfoldable pub dynamic_module : ModuleMetadata → DynamicModule
dynamic_module metadata = record {
  metadata = metadata;
  dynamic_providers = [];
  pre_bootstrap = none;
}

unfoldable pub dynamic_with_providers : DynamicModule → List ℕ → DynamicModule
dynamic_with_providers self providers = record self { dynamic_providers = providers }

unfoldable pub dynamic_with_global : DynamicModule → Bool → DynamicModule
dynamic_with_global self is_global = record self { metadata = with_global self.metadata is_global }

unfoldable pub with_pre_bootstrap : DynamicModule → Result Text (Unit {0}) → DynamicModule
with_pre_bootstrap self hook = record self { pre_bootstrap = some hook }

unfoldable pub run_pre_bootstrap : DynamicModule → Result Text (Unit {0})
run_pre_bootstrap self = elim self.pre_bootstrap [ none ↦ ok tt | some hook ↦ hook ]

-- The loop of `merged_metadata`.
unfoldable pub push_missing : List ℕ → List ℕ → List ℕ
push_missing [] known = known
push_missing (id ∷ ids) known =
    push_missing ids (if mem id known then known else known ++ (id ∷ []))

unfoldable pub merged_metadata : DynamicModule → ModuleMetadata
merged_metadata self =
    let own = self.metadata in
    record own { providers = push_missing self.dynamic_providers own.providers }

-- `entries.insert(entry.type_id, entry).is_none()` beside the new registry.
abbrev pub insert_entry : ModuleRegistry → ModuleEntry → ModuleRegistry × Bool
insert_entry self entry = (insert_map entry.type_id entry self, is_none (lookup entry.type_id self))

-- The type argument `M` is its identifier and its name, the module its metadata.
unfoldable pub register_module : ModuleRegistry → ℕ → Text → ModuleMetadata → ModuleRegistry × Bool
register_module self type_id type_name metadata =
    insert_entry self (record { type_id = type_id; type_name = type_name; metadata = metadata })

unfoldable pub register_dynamic : ModuleRegistry → ℕ → Text → DynamicModule → ModuleRegistry × Bool
register_dynamic self type_id type_name dynamic =
    insert_entry self
      (record { type_id = type_id; type_name = type_name; metadata = merged_metadata dynamic })

unfoldable pub global_module_ids : ModuleRegistry → List ℕ
global_module_ids self =
    map (λ (global : Text × ℕ). global.1)
      (sort_by (λ left right. cmp_text left.0 right.0)
        (map (λ (item : ℕ × ModuleEntry). (item.1.type_name, item.1.type_id))
          (keep (λ (item : ℕ × ModuleEntry). item.1.metadata.is_global) self)))

-- The set `seen` and the list `sources` of `import_sources_by_id`.
pub record SourceList : Type 0 where
  pub seen : List ℕ
  pub sources : List ℕ

-- `if seen.insert(id) { sources.push(id) }`.
abbrev pub add_source : ℕ → SourceList → SourceList
add_source id acc =
    if mem id acc.seen
    then acc
    else record { seen = id ∷ acc.seen; sources = acc.sources ++ (id ∷ []) }

unfoldable pub add_imports :
    ModuleRegistry → Text → List ℕ → SourceList → Result ModuleRegistryError SourceList
add_imports self module_name [] acc = ok acc
add_imports self module_name (id ∷ ids) acc =
    let rest = add_imports self module_name ids (add_source id acc) in
    if is_some (lookup id self) then rest else err (missing_import module_name id)

unfoldable pub add_globals : ℕ → List ℕ → SourceList → SourceList
add_globals module_id [] acc = acc
add_globals module_id (global ∷ globals) acc =
    add_globals module_id globals (if global == module_id then acc else add_source global acc)

unfoldable pub import_sources_of :
    ModuleRegistry → ℕ → ModuleEntry → Result ModuleRegistryError (List ℕ)
import_sources_of self module_id entry = do
  imported ←
      add_imports self entry.type_name entry.metadata.imports (record { seen = []; sources = [] })
  ok (add_globals module_id (global_module_ids self) imported).sources

unfoldable pub import_sources_by_id :
    ModuleRegistry → ℕ → Option (Result ModuleRegistryError (List ℕ))
import_sources_by_id self module_id = elim (lookup module_id self) [
  | none ↦ none
  | some entry ↦ some (import_sources_of self module_id entry)
]
