-- ===== src/Core/Modules/Imports/Missing.antt =====
-- A missing import stops the order of initialisation.
use nivasa.Prelude.{
  ◌==◌, if◌then◌else◌, ==_iff, Bool-cases, Option-cases, some-injective, is_some, length, last, All,
  Text, mem, lookup, Run, and_run, done, fail, and_run-eq-done, ℕ, zero, suc, ◌≡◌, ◌⊎◌, ap,
  mem-keys, none, refl, sym, ◌∙◌, subst, inl, inr, true, false, some, ok, err, ◌≢◌, List, [], ◌∷◌,
}
use nivasa.Core.Graph.{Walk, start, leave}
use nivasa.Core.Modules.{ModuleEntry, ModuleRegistry, ModuleRegistryError}
use nivasa.Core.Modules.Imports.{
  enter_module, follow_import, each_import, visit_module, import_dfs, each_import_root,
  import_roots, import_resolve_order, circle,
}
use mathlib.Core.Path.{ap₂}
use nivasa.Core.Modules.Imports.Reference.{node_of}
use nivasa.Core.Modules.Imports.Order.{
  IsRegistry, import_graph, lookup-import_graph, roots_keys, is_some-map,
}
use nivasa.Core.Modules.Imports.Total.{import_resolve_order_total}

module _ (self : ModuleRegistry) where
  abbrev IsRegistered : ℕ → Type 0
  IsRegistered id = is_some (lookup id self) ≡ true

  -- The imports of the module are registered.
  abbrev pub HasImports : ℕ → Type 0
  HasImports id =
      (entry : ModuleEntry) → lookup id self ≡ some entry → All IsRegistered entry.metadata.imports

  -- The completed modules have their imports.
  abbrev Complete : Walk → Type 0
  Complete walk = (id : ℕ) → mem id walk.visited ≡ true → HasImports id

  -- What a successful step keeps, for one amount of fuel.
  abbrev Completes : (ℕ → Walk → Run ModuleRegistryError Walk) → Type 0
  Completes go =
      (id : ℕ) (before after : Walk)
      → go id before ≡ done after
      → Complete before
      → Complete after × HasImports id

  follow_import-Complete :
      (go : ℕ → Walk → Run ModuleRegistryError Walk) (id : ℕ) (entry : ModuleEntry)
      (before after : Walk)
      → Completes go
      → follow_import (go id) id entry before ≡ done after
      → Complete before
      → Complete after
  unfolding follow_import
  follow_import-Complete go id entry before after keeps run complete =
      elim (Bool-cases (mem id before.visiting)) [
        | inl is_open ↦ cc (rw is_open at run)
        | inr fresh ↦ (keeps id before after (rw fresh at run) complete).0
      ]

  each_import-Complete :
      (go : ℕ → Walk → Run ModuleRegistryError Walk) (name : Text) (imports : List ℕ)
      (before after : Walk)
      → Completes go
      → each_import self go name imports before ≡ done after
      → Complete before
      → Complete after × All IsRegistered imports
  unfolding each_import
  each_import-Complete go name [] before after keeps run complete =
      (subst Complete (some_ok before after run) complete, tt)
    where
      some_ok : (a b : Walk) → ◌≡◌ {A = Run ModuleRegistryError Walk} (done a) (done b) → a ≡ b
      some_ok a b e = cc
  each_import-Complete go name (id ∷ ids) before after keeps run complete =
      elim (Option-cases (lookup id self)) [
        | inl missing ↦ cc (rw (missing, each_import) at run)
        | inr (entry, found) ↦
            let (middle, first_run, rest_run) =
              and_run-eq-done (follow_import (go id) id entry before) (each_import self go name ids)
                (rw (found, each_import) at run) in
            let (later, others) =
              each_import-Complete go name ids middle after keeps rest_run
                (follow_import-Complete go id entry before middle keeps first_run complete) in
            (later, (rw found refl, others))
      ]

  leave-Complete : (id : ℕ) (walk : Walk) → Complete walk → HasImports id → Complete (leave id walk)
  leave-Complete id walk complete own i m = elim (Bool-cases (mem id walk.visited)) [
    | inl old ↦ complete i (rw old at m)
    | inr new ↦
        let listed = rw new at m in
        elim (Bool-cases (id == i)) [
          | inl same ↦ subst HasImports ((==_iff id i).0 same) own
          | inr other ↦ complete i (rw other at listed)
        ]
  ]

  done_eq : (a b : Walk) → ◌≡◌ {A = Run ModuleRegistryError Walk} (done a) (done b) → a ≡ b
  done_eq a b e = cc

  visit_module-Complete :
      (go : ℕ → Walk → Run ModuleRegistryError Walk) (id : ℕ) (entry : ModuleEntry)
      (before after : Walk)
      → lookup id self ≡ some entry
      → Completes go
      → visit_module self go id entry before ≡ done after
      → Complete before
      → Complete after × HasImports id
  unfolding visit_module
  visit_module-Complete go id entry before after found keeps run complete =
      elim (Bool-cases (mem id before.visiting)) [
        | inl is_open ↦ cc (rw is_open at run)
        | inr fresh ↦ elim (Bool-cases (mem id before.visited)) [
          | inl old ↦ (
            subst Complete (done_eq before after (rw old at (rw fresh at run))) complete,
            complete id old,
          )
          | inr new ↦
              let (middle, imported, left) =
                and_run-eq-done loop (λ w. done (leave id w)) (reached fresh new) in
              let (later, own) =
                each_import-Complete go entry.type_name entry.metadata.imports
                  (enter_module id entry before) middle keeps imported complete in
              let has : HasImports id = λ other e.
                subst (λ en. All IsRegistered en.metadata.imports) (some-injective (sym found ∙ e))
                  own in
              (
                subst Complete (done_eq (leave id middle) after left)
                    (leave-Complete id middle later has),
                has,
              )
        ]
      ]
    where
      loop : Run ModuleRegistryError Walk
      loop =
          each_import self go entry.type_name entry.metadata.imports (enter_module id entry before)

      reached :
          mem id before.visiting ≡ false
          → mem id before.visited ≡ false
          → and_run loop (λ w. done (leave id w)) ≡ done after
      reached fresh new =
          sym (
            ap₂
              (λ a b.
                if a
                then fail (circle entry before)
                else if b
                then done before
                else and_run loop (λ w. done (leave id w)))
              fresh new)
          ∙ run

  import_dfs-Completes : (fuel : ℕ) → Completes (import_dfs self fuel)
  unfolding import_dfs
  import_dfs-Completes zero id before after run complete = cc
  import_dfs-Completes (suc fuel) id before after run complete =
      elim (Option-cases (lookup id self)) [
        | inl missing ↦ cc (rw (missing, import_dfs) at run)
        | inr (entry, found) ↦
            visit_module-Complete (import_dfs self fuel) id entry before after found
              (import_dfs-Completes fuel) (rw (found, import_dfs) at run) complete
      ]

  each_import_root-Complete :
      (fuel : ℕ) (ids : List ℕ) (before after : Walk)
      → each_import_root self fuel ids before ≡ done after
      → Complete before
      → All HasImports ids
  unfolding each_import_root
  each_import_root-Complete fuel [] before after run complete = tt
  each_import_root-Complete fuel (id ∷ ids) before after run complete =
      elim (Bool-cases (mem id before.visited)) [
        | inl old ↦ (
          complete id old,
          each_import_root-Complete fuel ids before after (rw old at run) complete,
        )
        | inr new ↦
            let (middle, first_run, rest_run) =
              and_run-eq-done (import_dfs self fuel id (record before { path = [] }))
                (each_import_root self fuel ids) (rw new at run) in
            let (later, own) =
              import_dfs-Completes fuel id (record before { path = [] }) middle first_run
                complete in
            (own, each_import_root-Complete fuel ids middle after rest_run later)
      ]

  import_resolve_order-All :
      (order : List ℕ) → import_resolve_order self ≡ done order → All HasImports (import_roots self)
  unfolding import_resolve_order
  import_resolve_order-All order e =
      let (walk, run, last) =
        and_run-eq-done (each_import_root self (suc (length self)) (import_roots self) start) _ e in
      each_import_root-Complete (suc (length self)) (import_roots self) start walk run (λ id m. cc)

  -- A run with an answer fails, or succeeds and has what success brings.
  Run-cases :
      {P : List ℕ → Type 0} (run : Run ModuleRegistryError (List ℕ))
      → run ≢ none
      → ((order : List ℕ) → run ≡ done order → P order)
      → ((order : List ℕ) × (run ≡ done order) × P order)
        ⊎ ((error : ModuleRegistryError) × (run ≡ fail error))
  Run-cases none answers f = absurd (answers refl)
  Run-cases (some (ok order)) answers f = inl (order, refl, f order refl)
  Run-cases (some (err error)) answers f = inr (error, refl)

  at_member : (P : ℕ → Type 0) (ids : List ℕ) (id : ℕ) → All P ids → mem id ids ≡ true → P id
  at_member P [] id h m = cc
  at_member P (x ∷ ids) id (own, h) m = elim (Bool-cases (x == id)) [
    | inl same ↦ subst P ((==_iff x id).0 same) own
    | inr other ↦ at_member P ids id h (rw other at m)
  ]

  root_mem :
      (id : ℕ) (entry : ModuleEntry)
      → IsRegistry self
      → lookup id self ≡ some entry
      → mem id (import_roots self) ≡ true
  root_mem id entry valid found =
      ap (mem id) (roots_keys self valid)
      ∙ mem-keys id (import_graph self)
      ∙ ap is_some (lookup-import_graph self id valid)
      ∙ is_some-map node_of (lookup id self)
      ∙ ap is_some found

  -- In a registry as registration makes it, `resolve_order` always answers: with an error, or with
  -- an order, and then the imports of every registered module are registered. So a registry where
  -- an import is missing gives an error.
  pub import_resolve_order-HasImports :
      IsRegistry self
      → ((order : List ℕ) × (import_resolve_order self ≡ done order) × ((id : ℕ) → HasImports id))
        ⊎ ((error : ModuleRegistryError) × (import_resolve_order self ≡ fail error))
  import_resolve_order-HasImports valid =
      Run-cases (import_resolve_order self) (import_resolve_order_total self valid)
        λ order e id entry found.
          at_member HasImports (import_roots self) id (import_resolve_order-All order e)
            (root_mem id entry valid found) entry found
