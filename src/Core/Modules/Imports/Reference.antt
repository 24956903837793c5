-- ===== src/Core/Modules/Imports/Reference.antt =====
-- The walk over imports does what the walk of the dependency graph does.
use nivasa.Prelude.{
  ◌==◌, Bool-cases, Option-cases, some-injective, is_some, pop-snoc, All, ok, err, Text, mem,
  lookup, Run, and_run, done, fail, ℕ, zero, suc, ◌≡◌, refl, sym, ap, subst, ◌≢◌, ◌⊎◌, inl, inr,
  true, none, some, List, [], ◌∷◌,
}
use mathlib.Core.Option
use nivasa.Core.Graph.{
  DiError, circular_dependency, Node, DependencyGraph, Walk, enter, leave, each_dependency,
  run_node, visit, dfs, each_root,
}
use nivasa.Core.Modules.{
  ModuleEntry, ModuleRegistry, ModuleRegistryError, missing_import, circular_import, invalid_export,
}
use nivasa.Core.Modules.Imports.{
  circle, enter_module, follow_import, each_import, visit_module, import_dfs, each_import_root,
}

-- The runs give the same, where the second has an answer: the same value, or the same cycle.
abbrev pub Agrees : {A : Type 0} → Run ModuleRegistryError A → Run DiError A → Type 0
Agrees m none = Unit
Agrees (some (ok a)) (some (ok b)) = a ≡ b
Agrees (some (err (circular_import module_name cycle))) (some (err (circular_dependency other))) =
    cycle ≡ other
Agrees _ (some _) = ⊥

pub Agrees-and_run :
    {A : Type 0} {B : Type 0} (m : Run ModuleRegistryError A) (n : Run DiError A)
    (f : A → Run ModuleRegistryError B) (g : A → Run DiError B)
    → Agrees m n
    → ((a : A) → Agrees (f a) (g a))
    → Agrees (and_run m f) (and_run n g)
Agrees-and_run m none f g h k = tt
Agrees-and_run (some (ok a)) (some (ok b)) f g h k = subst (λ c. Agrees (f a) (g c)) h (k a)
Agrees-and_run (some (err (circular_import _ c))) (some (err (circular_dependency d))) f g h k = h
Agrees-and_run none (some _) f g h k = elim h [ ]
Agrees-and_run (some (ok a)) (some (err _)) f g h k = elim h [ ]
Agrees-and_run (some (err (missing_import _ _))) (some _) f g h k = elim h [ ]
Agrees-and_run (some (err (invalid_export _ _))) (some _) f g h k = elim h [ ]
Agrees-and_run (some (err (circular_import _ _))) (some (ok b)) f g h k = elim h [ ]

-- Of runs that agree, either both give the same value or both fail with the same cycle.
pub Agrees-cases :
    {A : Type 0} (m : Run ModuleRegistryError A) (n : Run DiError A)
    → Agrees m n
    → n ≢ none
    → ((a : A) × (m ≡ done a) × (n ≡ done a))
      ⊎ ((module_name cycle : Text) × (m ≡ fail (circular_import module_name cycle))
          × (n ≡ fail (circular_dependency cycle)))
Agrees-cases m none h k = absurd (k refl)
Agrees-cases (some (ok a)) (some (ok b)) h k = inl (a, refl, ap done (sym h))
Agrees-cases (some (err (circular_import name c))) (some (err (circular_dependency d))) h k =
    inr (name, c, refl, ap (λ t. fail (circular_dependency t)) (sym h))
Agrees-cases none (some _) h k = elim h [ ]
Agrees-cases (some (ok a)) (some (err _)) h k = elim h [ ]
Agrees-cases (some (err (missing_import _ _))) (some _) h k = elim h [ ]
Agrees-cases (some (err (invalid_export _ _))) (some _) h k = elim h [ ]
Agrees-cases (some (err (circular_import _ _))) (some (ok b)) h k = elim h [ ]

-- The module as a node of the dependency graph.
abbrev pub node_of : ModuleEntry → Node
node_of entry = record { type_name = entry.type_name; dependencies = entry.metadata.imports }

-- All imports are registered.
abbrev pub AllRegistered : ModuleRegistry → Type 0
AllRegistered self =
    All
      (λ (item : ℕ × ModuleEntry).
        All (λ import_id. is_some (lookup import_id self) ≡ true) item.1.metadata.imports)
      self

All-lookup :
    {A : Type 0} (P : A → Type 0) (id : ℕ) (a : A) (m : List (ℕ × A))
    → All (λ (item : ℕ × A). P item.1) m
    → lookup id m ≡ some a
    → P a
All-lookup P id a [] h e = cc
All-lookup P id a ((j, b) ∷ m) (p, h) e = elim (Bool-cases (j == id)) [
  | inl same ↦ subst P (some-injective (rw same at e)) p
  | inr other ↦ All-lookup P id a m h (rw other at e)
]

pub registered_imports :
    (self : ModuleRegistry) (id : ℕ) (entry : ModuleEntry)
    → AllRegistered self
    → lookup id self ≡ some entry
    → All (λ import_id. is_some (lookup import_id self) ≡ true) entry.metadata.imports
registered_imports self id entry h found =
    All-lookup
      (λ (e : ModuleEntry).
        All (λ import_id. is_some (lookup import_id self) ≡ true) e.metadata.imports)
      id entry self h found

module _ (self : ModuleRegistry) (graph : DependencyGraph) where
  -- The graph has the modules as nodes.
  abbrev pub Represents : Type 0
  Represents = (id : ℕ) → lookup id graph ≡ Option.map node_of (lookup id self)

  module _ (represents : Represents) (registered : AllRegistered self) where
    dfs-open :
        (fuel id : ℕ) (entry : ModuleEntry) (walk : Walk)
        → lookup id self ≡ some entry
        → mem id walk.visiting ≡ true
        → Agrees {A = Walk} (fail (circle entry walk)) (dfs graph fuel id walk)
    unfolding dfs visit
    dfs-open zero id entry walk found is_open = tt
    dfs-open (suc fuel) id entry walk found is_open =
        rw (represents id, dfs) (rw found (rw is_open refl))

    -- What the walk over imports does for a registered module, for one amount of fuel.
    abbrev Walks : ℕ → Type 0
    Walks fuel =
        (id : ℕ) (w : Walk)
        → is_some (lookup id self) ≡ true
        → Agrees (import_dfs self fuel id w) (dfs graph fuel id w)

    follow_import-Agrees :
        (fuel id : ℕ) (entry : ModuleEntry) (walk : Walk)
        → lookup id self ≡ some entry
        → Walks fuel
        → Agrees (follow_import (import_dfs self fuel id) id entry walk) (dfs graph fuel id walk)
    unfolding follow_import
    follow_import-Agrees fuel id entry walk found ih = elim (Bool-cases (mem id walk.visiting)) [
      | inl is_open ↦ rw is_open (dfs-open fuel id entry walk found is_open)
      | inr fresh ↦ rw fresh (ih id walk (rw found refl))
    ]

    each_import-Agrees :
        (fuel : ℕ) (module_name : Text) (imports : List ℕ) (walk : Walk)
        → Walks fuel
        → All (λ import_id. is_some (lookup import_id self) ≡ true) imports
        → Agrees
            (each_import self (import_dfs self fuel) module_name imports walk)
            (each_dependency (dfs graph fuel) imports walk)
    unfolding each_import each_dependency
    each_import-Agrees fuel module_name [] walk ih known = refl
    each_import-Agrees fuel module_name (id ∷ ids) walk ih (here, known) =
        elim (Option-cases (lookup id self)) [
          | inl missing ↦ cc (rw missing at here)
          | inr (entry, found) ↦
              rw (found, each_import)
                (Agrees-and_run _ _ _ _ (follow_import-Agrees fuel id entry walk found ih)
                  (λ w. each_import-Agrees fuel module_name ids w ih known))
        ]

    opened-Agrees :
        (fuel id : ℕ) (entry : ModuleEntry) (walk : Walk)
        → lookup id self ≡ some entry
        → Walks fuel
        → Agrees {A = Walk}
            (and_run
              (each_import self
                (import_dfs self fuel)
                entry.type_name
                entry.metadata.imports
                (enter_module id entry walk))
              λ after. done (leave id after))
            (and_run
              (each_dependency
                (dfs graph fuel)
                entry.metadata.imports
                (enter id (node_of entry) walk))
              λ after. done (leave id after))
    opened-Agrees fuel id entry walk found ih =
        Agrees-and_run _ _ _ _
          (each_import-Agrees fuel entry.type_name entry.metadata.imports
            (enter_module id entry walk) ih (registered_imports self id entry registered found))
          (λ after. refl)

    visit_module-Agrees :
        (fuel id : ℕ) (entry : ModuleEntry) (walk : Walk)
        → lookup id self ≡ some entry
        → Walks fuel
        → Agrees
            (visit_module self (import_dfs self fuel) id entry walk)
            (visit (dfs graph fuel) id (node_of entry) walk)
    unfolding visit_module visit run_node
    visit_module-Agrees fuel id entry walk found ih = elim (Bool-cases (mem id walk.visiting)) [
      | inl is_open ↦ rw is_open refl
      | inr fresh ↦ elim (Bool-cases (mem id walk.visited)) [
        | inl completed ↦
            rw (fresh, completed)
              (ap (λ p. record walk { path = p }) (sym (pop-snoc walk.path entry.type_name)))
        | inr new ↦
            let opened = opened-Agrees fuel id entry walk found ih in
            rw (fresh, new) (rw fresh at opened)
      ]
    ]

    import_dfs-Agrees : (fuel : ℕ) → Walks fuel
    unfolding import_dfs dfs
    import_dfs-Agrees zero id walk here = tt
    import_dfs-Agrees (suc fuel) id walk here = elim (Option-cases (lookup id self)) [
      | inl missing ↦ cc (rw missing at here)
      | inr (entry, found) ↦
          rw (represents id, dfs)
            (rw (found, import_dfs)
              (visit_module-Agrees fuel id entry walk found (import_dfs-Agrees fuel)))
    ]

    pub each_import_root-Agrees :
        (fuel : ℕ) (ids : List ℕ) (walk : Walk)
        → All (λ id. is_some (lookup id self) ≡ true) ids
        → Agrees (each_import_root self fuel ids walk) (each_root graph fuel ids walk)
    unfolding each_import_root each_root
    each_import_root-Agrees fuel [] walk known = refl
    each_import_root-Agrees fuel (id ∷ ids) walk (here, known) =
        elim (Bool-cases (mem id walk.visited)) [
          | inl completed ↦ rw completed (each_import_root-Agrees fuel ids walk known)
          | inr new ↦ rw new (
              Agrees-and_run _ _ _ _ (import_dfs-Agrees fuel id _ here)
                (λ w. each_import_root-Agrees fuel ids w known))
        ]
