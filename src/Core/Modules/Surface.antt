-- ===== src/Core/Modules/Surface.antt =====
-- The exported and visible surfaces of modules in nivasa-core/src/module/registry.rs. A run of the
-- recursive walk gives no answer, `none`, where the source panics on `expect` for a module that is
-- not registered, and when its fuel, one unit more than there are modules, is used up.
use nivasa.Prelude.{
  ◌==◌, if◌then◌else◌, length, pop, any, keep, Result, ok, err, Text, codes, join_with, mem,
  insert_set, remove_set, lookup, insert_map, Run, and_run, done, fail, ℕ, zero, suc, Bool, ◌||◌,
  not, none, some, List, [], ◌∷◌, ◌++◌,
}
use nivasa.Core.Modules.{
  ModuleEntry, ModuleRegistry, ModuleRegistryError, missing_import, invalid_export, circular_import,
  global_module_ids,
}

-- What `public_surface_for` changes through its references.
pub record Surfaces : Type 0 where
  pub cache : List (ℕ × List ℕ)
  pub visiting : List ℕ
  pub path : List Text

abbrev pub no_surfaces : Surfaces
no_surfaces = record { cache = []; visiting = []; path = [] }

-- A run of the walk: what it changes, and what it gives.
abbrev pub Walked : Type 0 → Type 0
Walked A = Run ModuleRegistryError (Surfaces × A)

-- The loop over the imports of a module.
unfoldable pub import_surfaces :
    ModuleRegistry
    → (ℕ → Surfaces → Walked (List ℕ))
    → Text
    → List ℕ
    → Surfaces
    → Walked (List (List ℕ))
import_surfaces self go module_name [] walk = done (walk, [])
import_surfaces self go module_name (id ∷ ids) walk =
    let later = and_run (go id walk) λ found.
      and_run (import_surfaces self go module_name ids found.0)
        λ rest. done (rest.0, found.1 ∷ rest.1) in
    elim (lookup id self) [ none ↦ fail (missing_import module_name id) | some imported ↦ later ]

-- The loop over the exports of a module.
unfoldable pub collect_exports :
    Text → List ℕ → List (List ℕ) → List ℕ → List ℕ → Result ModuleRegistryError (List ℕ)
collect_exports module_name provided imported [] surface = ok surface
collect_exports module_name provided imported (exported ∷ exports) surface =
    let rest =
      collect_exports module_name provided imported exports (insert_set exported surface) in
    if mem exported provided || any (λ found. mem exported found) imported
    then rest
    else err (invalid_export module_name exported)

-- The end of `public_surface_for`, with the surfaces of the imports.
unfoldable pub close_surface : ℕ → ModuleEntry → Surfaces × List (List ℕ) → Walked (List ℕ)
close_surface current entry (walk, imported) =
    let own = entry.metadata in
    elim (collect_exports entry.type_name own.providers imported own.exports []) [
      | err failure ↦ fail failure
      | ok surface ↦ done (
        record {
          cache = insert_map current surface walk.cache;
          visiting = remove_set current walk.visiting;
          path = pop walk.path;
        },
        surface,
      )
    ]

-- `public_surface_for` for a registered module that is not in the cache.
unfoldable pub open_surface :
    ModuleRegistry → (ℕ → Surfaces → Walked (List ℕ)) → ℕ → ModuleEntry → Surfaces → Walked (List ℕ)
open_surface self go current entry walk =
    let pushed = walk.path ++ (entry.type_name ∷ []) in
    let entered : Surfaces = record walk {
      visiting = insert_set current walk.visiting;
      path = pushed;
    } in
    if mem current walk.visiting
    then fail (circular_import entry.type_name (join_with (codes " -> ") pushed))
    else and_run (import_surfaces self go entry.type_name entry.metadata.imports entered)
        (close_surface current entry)

module _ (self : ModuleRegistry) where
  unfoldable pub public_surface_for : ℕ → ℕ → Surfaces → Walked (List ℕ)
  public_surface_for zero current walk = none
  public_surface_for (suc fuel) current walk =
      let opened =
        λ (entry : ModuleEntry). open_surface self (public_surface_for fuel) current entry walk in
      elim (lookup current walk.cache) [
        | some cached ↦ done (walk, cached)
        | none ↦ elim (lookup current self) [ none ↦ none | some entry ↦ opened entry ]
      ]

  unfoldable pub exported_surface_for : ℕ → Run ModuleRegistryError (List ℕ)
  exported_surface_for module_id =
      and_run (public_surface_for (suc (length self)) module_id no_surfaces) λ found. done found.1

  -- `visible.extend(surface)` for each of the listed modules.
  unfoldable pub extend_visible : List ℕ → Surfaces × List ℕ → Walked (List ℕ)
  extend_visible [] found = done found
  extend_visible (id ∷ ids) (walk, visible) =
      and_run (public_surface_for (suc (length self)) id walk)
        λ found. extend_visible ids (found.0, found.1 ++ visible)

  -- The modules that `visible_exports_by_id` asks for their surfaces, behind the module itself.
  unfoldable pub visible_sources : ℕ → ModuleEntry → List ℕ
  visible_sources module_id entry =
      entry.metadata.imports
      ++ (keep (λ global. not (global == module_id)) (global_module_ids self)
          ++ (if entry.metadata.is_global then module_id ∷ [] else []))

  unfoldable pub visible_exports_by_id : ℕ → Run ModuleRegistryError (List ℕ)
  visible_exports_by_id module_id = elim (lookup module_id self) [
    | none ↦ none
    | some entry ↦
        and_run (public_surface_for (suc (length self)) module_id no_surfaces) λ own.
          and_run (extend_visible (visible_sources module_id entry) own) λ found. done found.1
  ]

  -- `is_visible_to`, for the identifiers of its two type arguments.
  unfoldable pub is_visible_to : ℕ → ℕ → Run ModuleRegistryError Bool
  is_visible_to consumer exported =
      and_run (visible_exports_by_id consumer) λ visible. done (mem exported visible)
