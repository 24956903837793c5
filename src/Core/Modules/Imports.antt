-- ===== src/Core/Modules/Imports.antt =====
-- The order of initialisation in nivasa-core/src/module/registry.rs. A run gives no answer, `none`,
-- where the source panics on `expect` for a module that is not registered, and when its fuel, one
-- unit more than there are modules, is used up. What the walk changes is the record of the
-- dependency graph's walk, which has the same four variables.
pub mod Reference
pub mod Order
pub mod Outcome
pub mod Total
pub mod Missing
use nivasa.Prelude.{
  ltb, leb, ◌==◌, if◌then◌else◌, ==_iff, ==_refl, Bool-cases, Option-cases, some-injective, is_some,
  is_none, first_some, length, is_empty, first, last, pop, pop-snoc, get_elem?, any, all, find,
  keep, replicate, length-append, All, All-append, All-map, append-eq-nil, flat_map-eq-nil, Result,
  ◌>>=◌, map_err, Result-cases, >>=-eq-ok, ok-injective, ok, err, Text, codes, text_eq, text_eq_iff,
  text_eq_refl, strip_prefix, ends_with, starts_with, upper_char, to_ascii_uppercase, push_head,
  split, join, join_with, Lacks, split_whole, split-append, push_head-All, split-Lacks,
  keep-nonempty, is_whitespace, drop_while, drop_end, trim_start_matches, trim_end_matches,
  trim_matches, trim, ends_without, begins_without, drop_while_id, drop_end_id, last-drop_end,
  first-drop_while, last-append, trim_id, cmp_text, get_text, put_text, get_text-put_text,
  get_text-put_text_other, join-split, strip_text, strip_text-append, strip_text-eq-some, mem_text,
  mem_text-append, Below, insert_by, sort_by, IsSortedBy, insert_by-perm, sort_by-perm, IsPreorder,
  sort_by-IsSortedBy, mem, insert_set, remove_set, remove_set_fresh, remove_set_head, IsDistinct,
  lookup, insert_map, keys, mem-keys, lookup-insert_map, remove_map, adjust_map, keys-adjust_map,
  IsDistinct-remove_map, remove_map-adjust_map, count_outside, count_outside-le, count_outside-lt,
  Run, and_run, done, fail, and_run-eq-done, and_run-ne-none, ℕ, zero, suc, ◌+◌, ◌-◌, ◌*◌, ◌≤◌, ◌<◌,
  compare, Ordering, ◌≡◌, refl, sym, ap, ◌∙◌, subst, ◌≢◌, ◌↔◌, ◌⊎◌, inl, inr, Bool, true, false,
  ◌&&◌, ◌||◌, not, Option, none, some, List, [], ◌∷◌, ◌++◌, map, arith,
}
use nivasa.Core.Graph.{Walk, start, leave}
use nivasa.Core.Modules.{
  ModuleEntry, ModuleRegistry, ModuleRegistryError, missing_import, circular_import,
}

-- The error for a module that is open already.
abbrev pub circle : ModuleEntry → Walk → ModuleRegistryError
circle entry walk =
    circular_import entry.type_name (join_with (codes " -> ") (walk.path ++ (entry.type_name ∷ [])))

abbrev pub enter_module : ℕ → ModuleEntry → Walk → Walk
enter_module current entry walk = record walk {
  visiting = insert_set current walk.visiting;
  path = walk.path ++ (entry.type_name ∷ []);
}

-- The body of the loop over the imports, for one that is registered.
unfoldable pub follow_import :
    (Walk → Run ModuleRegistryError Walk) → ℕ → ModuleEntry → Walk → Run ModuleRegistryError Walk
follow_import go import_id imported walk =
    if mem import_id walk.visiting then fail (circle imported walk) else go walk

module _ (self : ModuleRegistry) where
  -- The loop over the imports of a module.
  unfoldable pub each_import :
      (ℕ → Walk → Run ModuleRegistryError Walk)
      → Text
      → List ℕ
      → Walk
      → Run ModuleRegistryError Walk
  each_import go module_name [] walk = done walk
  each_import go module_name (import_id ∷ imports) walk =
      let later = λ (imported : ModuleEntry).
        and_run (follow_import (go import_id) import_id imported walk)
          (each_import go module_name imports) in
      elim (lookup import_id self) [
        | none ↦ fail (missing_import module_name import_id)
        | some imported ↦ later imported
      ]

  -- The body of `dfs` for a registered module.
  unfoldable pub visit_module :
      (ℕ → Walk → Run ModuleRegistryError Walk)
      → ℕ
      → ModuleEntry
      → Walk
      → Run ModuleRegistryError Walk
  visit_module go current entry walk =
      let opened =
        and_run
          (each_import go entry.type_name entry.metadata.imports (enter_module current entry walk))
          λ after. done (leave current after) in
      if mem current walk.visiting
      then fail (circle entry walk)
      else if mem current walk.visited
      then done walk
      else opened

  unfoldable pub import_dfs : ℕ → ℕ → Walk → Run ModuleRegistryError Walk
  import_dfs zero current walk = none
  import_dfs (suc fuel) current walk = elim (lookup current self) [
    | none ↦ none
    | some entry ↦ visit_module (import_dfs fuel) current entry walk
  ]

  -- The loop of `resolve_order`, each root with a path of its own.
  unfoldable pub each_import_root : ℕ → List ℕ → Walk → Run ModuleRegistryError Walk
  each_import_root fuel [] walk = done walk
  each_import_root fuel (id ∷ ids) walk =
      let visited_root =
        and_run (import_dfs fuel id (record walk { path = [] })) (each_import_root fuel ids) in
      if mem id walk.visited then each_import_root fuel ids walk else visited_root

  -- The roots sorted by name.
  unfoldable pub import_roots : List ℕ
  import_roots =
      map (λ (root : Text × ℕ). root.1)
        (sort_by (λ left right. cmp_text left.0 right.0)
          (map (λ (item : ℕ × ModuleEntry). (item.1.type_name, item.1.type_id)) self))

  unfoldable pub import_resolve_order : Run ModuleRegistryError (List ℕ)
  import_resolve_order =
      and_run (each_import_root (suc (length self)) import_roots start) λ walk. done walk.order
