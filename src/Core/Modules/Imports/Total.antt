-- ===== src/Core/Modules/Imports/Total.antt =====
-- The order of initialisation has an answer: no run panics or uses up its fuel.
use nivasa.Prelude.{
  if◌then◌else◌, Bool-cases, Option-cases, is_some, length, All, Text, mem, insert_set, remove_set,
  remove_set_head, lookup, keys, mem-keys, count_outside, count_outside-lt, Run, and_run, done,
  fail, and_run-eq-done, and_run-ne-none, ℕ, zero, suc, ◌<◌, ◌≡◌, refl, sym, ap, ◌∙◌, subst, ◌≢◌,
  inl, inr, Bool, true, false, none, some, List, [], ◌∷◌, arith,
}
use mathlib.Core.Path.{ap₂}
use nivasa.Core.Graph.{Walk, start, leave}
use nivasa.Core.Modules.{ModuleEntry, ModuleRegistry, ModuleRegistryError}
use nivasa.Core.Modules.Imports.{
  circle, enter_module, follow_import, each_import, visit_module, import_dfs, each_import_root,
  import_roots, import_resolve_order,
}
use nivasa.Core.Modules.Imports.Order.{IsRegistry, roots_keys, registered_roots}

-- A run that succeeds leaves the same modules open.
abbrev KeepsOpen : (ℕ → Walk → Run ModuleRegistryError Walk) → Type 0
KeepsOpen go =
    (id : ℕ) (before after : Walk) → go id before ≡ done after → after.visiting ≡ before.visiting

pub done_eq : (a b : Walk) → ◌≡◌ {A = Run ModuleRegistryError Walk} (done a) (done b) → a ≡ b
done_eq a b e = cc

module _ (self : ModuleRegistry) where
  follow_import-visiting :
      (go : ℕ → Walk → Run ModuleRegistryError Walk) (id : ℕ) (entry : ModuleEntry)
      (before after : Walk)
      → KeepsOpen go
      → follow_import (go id) id entry before ≡ done after
      → after.visiting ≡ before.visiting
  unfolding follow_import
  follow_import-visiting go id entry before after keeps run =
      elim (Bool-cases (mem id before.visiting)) [
        | inl is_open ↦ cc (rw is_open at run)
        | inr fresh ↦ keeps id before after (rw fresh at run)
      ]

  each_import-visiting :
      (go : ℕ → Walk → Run ModuleRegistryError Walk) (name : Text) (imports : List ℕ)
      (before after : Walk)
      → KeepsOpen go
      → each_import self go name imports before ≡ done after
      → after.visiting ≡ before.visiting
  unfolding each_import
  each_import-visiting go name [] before after keeps run =
      ap (λ (w : Walk). w.visiting) (sym (done_eq before after run))
  each_import-visiting go name (id ∷ ids) before after keeps run =
      elim (Option-cases (lookup id self)) [
        | inl missing ↦ cc (rw (missing, each_import) at run)
        | inr (entry, found) ↦
            let (middle, first_run, rest_run) =
              and_run-eq-done (follow_import (go id) id entry before) (each_import self go name ids)
                (rw (found, each_import) at run) in
            each_import-visiting go name ids middle after keeps rest_run
            ∙ follow_import-visiting go id entry before middle keeps first_run
      ]

  visit_module-visiting :
      (go : ℕ → Walk → Run ModuleRegistryError Walk) (id : ℕ) (entry : ModuleEntry)
      (before after : Walk)
      → KeepsOpen go
      → visit_module self go id entry before ≡ done after
      → after.visiting ≡ before.visiting
  unfolding visit_module
  visit_module-visiting go id entry before after keeps run =
      elim (Bool-cases (mem id before.visiting)) [
        | inl is_open ↦ cc (rw is_open at run)
        | inr fresh ↦ elim (Bool-cases (mem id before.visited)) [
          | inl old ↦
              ap (λ (w : Walk). w.visiting)
                (sym (done_eq before after (rw old at (rw fresh at run))))
          | inr new ↦
              let (middle, imported, left) =
                and_run-eq-done loop (λ w. done (leave id w)) (reached fresh new) in
              ap (λ (w : Walk). w.visiting) (sym (done_eq (leave id middle) after left))
              ∙ ap (remove_set id) (
                  each_import-visiting go entry.type_name entry.metadata.imports
                    (enter_module id entry before) middle keeps imported)
              ∙ closed fresh
        ]
      ]
    where
      loop : Run ModuleRegistryError Walk
      loop =
          each_import self go entry.type_name entry.metadata.imports (enter_module id entry before)

      reached :
          mem id before.visiting ≡ false
          → mem id before.visited ≡ false
          → and_run loop (λ w. done (leave id w)) ≡ done after
      reached fresh new =
          sym (
            ap₂
              (λ a b.
                if a
                then fail (circle entry before)
                else if b
                then done before
                else and_run loop (λ w. done (leave id w)))
              fresh new)
          ∙ run

      closed :
          mem id before.visiting ≡ false
          → remove_set id (insert_set id before.visiting) ≡ before.visiting
      closed fresh =
          ap (λ b. remove_set id (if b then before.visiting else id ∷ before.visiting)) fresh
          ∙ remove_set_head id before.visiting fresh

  import_dfs-KeepsOpen : (fuel : ℕ) → KeepsOpen (import_dfs self fuel)
  unfolding import_dfs
  import_dfs-KeepsOpen zero id before after run = cc
  import_dfs-KeepsOpen (suc fuel) id before after run = elim (Option-cases (lookup id self)) [
    | inl missing ↦ cc (rw (missing, import_dfs) at run)
    | inr (entry, found) ↦
        visit_module-visiting (import_dfs self fuel) id entry before after
          (import_dfs-KeepsOpen fuel) (rw (found, import_dfs) at run)
  ]

  -- The runs of one amount of fuel have answers for registered modules.
  abbrev Answers : (ℕ → Walk → Run ModuleRegistryError Walk) → List ℕ → Type 0
  Answers go open_ids =
      (id : ℕ) (w : Walk) → is_some (lookup id self) ≡ true → w.visiting ≡ open_ids → go id w ≢ none

  each_import_total :
      (go : ℕ → Walk → Run ModuleRegistryError Walk) (name : Text) (imports open_ids : List ℕ)
      (walk : Walk)
      → KeepsOpen go
      → Answers go open_ids
      → walk.visiting ≡ open_ids
      → each_import self go name imports walk ≢ none
  unfolding each_import follow_import
  each_import_total go name [] open_ids walk keeps answers e = λ h. cc
  each_import_total go name (id ∷ ids) open_ids walk keeps answers e =
      elim (Option-cases (lookup id self)) [
        | inl missing ↦ rw (missing, each_import) (λ h. cc)
        | inr (entry, found) ↦
            rw (found, each_import)
              (and_run-ne-none _ _ (followed entry found) λ middle run.
                each_import_total go name ids open_ids middle keeps answers
                  (follow_import-visiting go id entry walk middle keeps run ∙ e))
      ]
    where
      by_test :
          (b : Bool) (entry : ModuleEntry)
          → go id walk ≢ none
          → (if b then fail (circle entry walk) else go id walk) ≢ none
      by_test true entry h = λ k. cc
      by_test false entry h = h

      followed :
          (entry : ModuleEntry)
          → lookup id self ≡ some entry
          → follow_import (go id) id entry walk ≢ none
      followed entry found =
          by_test (mem id walk.visiting) entry (answers id walk (rw found refl) e)

  visit_module_total :
      (fuel id : ℕ) (entry : ModuleEntry) (walk : Walk)
      → lookup id self ≡ some entry
      → ((i : ℕ) (w : Walk)
          → is_some (lookup i self) ≡ true
          → count_outside (keys self) w.visiting < fuel
          → import_dfs self fuel i w ≢ none)
      → count_outside (keys self) walk.visiting < suc fuel
      → visit_module self (import_dfs self fuel) id entry walk ≢ none
  unfolding visit_module
  visit_module_total fuel id entry walk found total bound =
      elim (Bool-cases (mem id walk.visiting)) [
        | inl g ↦ rw g (λ h. cc)
        | inr g ↦ elim (Bool-cases (mem id walk.visited)) [
          | inl v ↦ rw g (rw v (λ h. cc))
          | inr v ↦ rw g (rw v (rw (← opened g) (and_run-ne-none _ _ (loop g) (λ a e h. cc))))
        ]
      ]
    where
      opened : mem id walk.visiting ≡ false → insert_set id walk.visiting ≡ id ∷ walk.visiting
      opened g = rw g refl

      smaller : mem id walk.visiting ≡ false → count_outside (keys self) (id ∷ walk.visiting) < fuel
      smaller g = omega (
        arith,
        count_outside-lt (keys self) walk.visiting id (mem-keys id self ∙ rw found refl) g,
      )

      loop :
          mem id walk.visiting ≡ false
          → each_import self
              (import_dfs self fuel)
              entry.type_name
              entry.metadata.imports
              (enter_module id entry walk)
            ≢ none
      loop g =
          each_import_total (import_dfs self fuel) entry.type_name entry.metadata.imports
            (id ∷ walk.visiting) (enter_module id entry walk) (import_dfs-KeepsOpen fuel)
            (λ i w known e.
              total i w known (subst (λ l. count_outside (keys self) l < fuel) (sym e) (smaller g)))
            (opened g)

  import_dfs_total :
      (fuel id : ℕ) (walk : Walk)
      → is_some (lookup id self) ≡ true
      → count_outside (keys self) walk.visiting < fuel
      → import_dfs self fuel id walk ≢ none
  unfolding import_dfs
  import_dfs_total zero id walk known bound = absurd (omega arith)
  import_dfs_total (suc fuel) id walk known bound = elim (Option-cases (lookup id self)) [
    | inl missing ↦ cc (rw missing at known)
    | inr (entry, found) ↦
        rw (found, import_dfs)
          (visit_module_total fuel id entry walk found (import_dfs_total fuel) bound)
  ]

  each_import_root_total :
      (fuel : ℕ) (ids : List ℕ) (walk : Walk)
      → All (λ id. is_some (lookup id self) ≡ true) ids
      → walk.visiting ≡ []
      → count_outside (keys self) [] < fuel
      → each_import_root self fuel ids walk ≢ none
  unfolding each_import_root
  each_import_root_total fuel [] walk known e bound = λ h. cc
  each_import_root_total fuel (id ∷ ids) walk (own, known) e bound =
      elim (Bool-cases (mem id walk.visited)) [
        | inl v ↦ rw v (each_import_root_total fuel ids walk known e bound)
        | inr v ↦
            let root : Walk = record walk { path = [] } in
            rw v (
              and_run-ne-none (import_dfs self fuel id root) (each_import_root self fuel ids)
                (import_dfs_total fuel id root own
                  (subst (λ l. count_outside (keys self) l < fuel) (sym e) bound))
                λ middle run.
                  each_import_root_total fuel ids middle known
                    (import_dfs-KeepsOpen fuel id root middle run ∙ e) bound)
      ]

  outside_none : (m : ModuleRegistry) → count_outside (keys m) [] < suc (length m)
  outside_none [] = omega arith
  outside_none ((k, entry) ∷ m) = omega (arith, outside_none m)

  -- The roots of a registry as registration makes it are registered.
  roots_registered :
      IsRegistry self → All (λ id. is_some (lookup id self) ≡ true) (import_roots self)
  roots_registered valid = rw (roots_keys self valid) (registered_roots self valid)

  -- In a registry as registration makes it `resolve_order` has an answer: no `expect` panics, and
  -- one unit of fuel more than there are modules is enough.
  pub import_resolve_order_total : IsRegistry self → import_resolve_order self ≢ none
  unfolding import_resolve_order
  import_resolve_order_total valid =
      and_run-ne-none _ _
        (each_import_root_total (suc (length self)) (import_roots self) start
          (roots_registered valid) refl (outside_none self))
        (λ walk e h. cc)
