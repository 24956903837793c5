-- ===== src/Core/Modules/Imports/Outcome.antt =====
-- The order of initialisation: what it promises, and when there is none.
use nivasa.Prelude.{
  Option-cases, is_some, All, All-map, Text, mem, lookup, Run, done, fail, ℕ, ◌<◌, ◌≡◌, sym, ap,
  ◌∙◌, subst, ◌≢◌, ◌⊎◌, inl, inr, true, false, some, List, [], ◌∷◌,
}
use mathlib.Core.Option
use nivasa.Core.Graph.{resolve_order, DiError, circular_dependency}
use nivasa.Core.Graph.Visit.{is_registered, dependencies_of}
use nivasa.Core.Graph.Order.{IsOrdered, resolve_order-IsOrdered}
use nivasa.Core.Graph.Total.{resolve_order_total}
use nivasa.Core.Graph.Ranked.{resolve_order_iff}
use nivasa.Core.Graph.Acyclic.{IsRanked}
use nivasa.Core.Modules.{ModuleEntry, ModuleRegistry, circular_import}
use nivasa.Core.Modules.Imports.{import_resolve_order}
use nivasa.Core.Modules.Imports.Reference.{Agrees-cases, node_of, AllRegistered, registered_imports}
use nivasa.Core.Modules.Imports.Order.{
  IsRegistry, import_graph, lookup-import_graph, is_some-map, import_resolve_order-Agrees,
}

-- Each module of the list stands there once, is registered, and stands behind its imports.
abbrev pub ImportsFirst : ModuleRegistry → List ℕ → List ℕ → Type 0
ImportsFirst self seen [] = Unit
ImportsFirst self seen (id ∷ ids) =
    (mem id seen ≡ false)
    × ((entry : ModuleEntry) × (lookup id self ≡ some entry)
        × All (λ import_id. mem import_id seen ≡ true) entry.metadata.imports)
    × ImportsFirst self (id ∷ seen) ids

-- Each module has a higher rank than its imports.
abbrev pub ImportsRanked : ModuleRegistry → (ℕ → ℕ) → Type 0
ImportsRanked self rank =
    (id : ℕ) (entry : ModuleEntry)
    → lookup id self ≡ some entry
    → All (λ import_id. rank import_id < rank id) entry.metadata.imports

module _ (self : ModuleRegistry) (valid : IsRegistry self) (registered : AllRegistered self) where
  is_registered-import_graph :
      (id : ℕ) → is_registered (import_graph self) id ≡ is_some (lookup id self)
  is_registered-import_graph id =
      ap is_some (lookup-import_graph self id valid) ∙ is_some-map node_of (lookup id self)

  All-zip :
      {P Q R : ℕ → Type 0} (ids : List ℕ)
      → ((id : ℕ) → P id → Q id → R id)
      → All P ids
      → All Q ids
      → All R ids
  All-zip [] f h k = tt
  All-zip (id ∷ ids) f (p, h) (q, k) = (f id p q, All-zip ids f h k)

  abbrev Listed : List ℕ → ℕ → Type 0
  Listed seen dep = is_registered (import_graph self) dep ≡ true → mem dep seen ≡ true

  abbrev Lower : (ℕ → ℕ) → ℕ → ℕ → Type 0
  Lower rank id dep = is_registered (import_graph self) dep ≡ true → rank dep < rank id

  IsOrdered→ImportsFirst :
      (seen order : List ℕ)
      → IsOrdered (import_graph self) seen order
      → ImportsFirst self seen order
  IsOrdered→ImportsFirst seen [] h = tt
  IsOrdered→ImportsFirst seen (id ∷ ids) (fresh, here, deps, rest) =
      elim (Option-cases (lookup id self)) [
        | inl missing ↦ cc (rw missing at (sym (is_registered-import_graph id) ∙ here))
        | inr (entry, found) ↦
            let node : lookup id (import_graph self) ≡ some (node_of entry) =
              lookup-import_graph self id valid ∙ ap (Option.map node_of) found in
            let behind =
              All-zip entry.metadata.imports
                (λ dep listed known. listed (is_registered-import_graph dep ∙ known))
                (subst (λ o. All (Listed seen) (dependencies_of o)) node deps)
                (registered_imports self id entry registered found) in
            (fresh, (entry, found, behind), IsOrdered→ImportsFirst (id ∷ seen) ids rest)
      ]

  ImportsRanked→IsRanked :
      (rank : ℕ → ℕ) → ImportsRanked self rank → IsRanked (import_graph self) rank
  ImportsRanked→IsRanked rank ranked id = elim (Option-cases (lookup id self)) [
    | inl missing ↦
        subst (λ o. All (Lower rank id) (dependencies_of o))
          (sym (lookup-import_graph self id valid ∙ ap (Option.map node_of) missing)) tt
    | inr (entry, found) ↦
        subst (λ o. All (Lower rank id) (dependencies_of o))
          (sym (lookup-import_graph self id valid ∙ ap (Option.map node_of) found))
          (All-map entry.metadata.imports (λ dep lower known. lower) (ranked id entry found))
  ]

  -- In a registry all of whose imports are registered, `resolve_order` either gives every module
  -- exactly once, behind its imports, or reports a cycle; and then no ranking puts all imports below
  -- the modules that import them, so there is no such order.
  pub import_resolve_order_lem :
      ((order : List ℕ) × (import_resolve_order self ≡ done order)
        × ImportsFirst self [] order
        × ((id : ℕ) → mem id order ≡ is_some (lookup id self)))
      ⊎ ((module_name cycle : Text) × (import_resolve_order self
            ≡ fail (circular_import module_name cycle))
          × ((rank : ℕ → ℕ) → ¬ ImportsRanked self rank))
  import_resolve_order_lem =
      elim (Agrees-cases (import_resolve_order self) (resolve_order (import_graph self))
        (import_resolve_order-Agrees self valid registered)
        (resolve_order_total (import_graph self))) [
          | inl (order, resolved, in_graph) ↦ inl (
            order,
            resolved,
            IsOrdered→ImportsFirst [] order
                (resolve_order-IsOrdered (import_graph self) order 0 in_graph).0,
            λ id.
                (resolve_order-IsOrdered (import_graph self) order id in_graph).1
                ∙ is_registered-import_graph id,
          )
          | inr (name, cycle, refused, in_graph) ↦ inr (
            name,
            cycle,
            refused,
            λ rank ranked.
                let (order, found) =
                  (resolve_order_iff (import_graph self)).1
                    (rank, ImportsRanked→IsRanked rank ranked) in
                differ cycle order (sym in_graph ∙ found),
          )
        ]
    where
      differ :
          (cycle : Text) (order : List ℕ)
          → ◌≢◌ {A = Run DiError (List ℕ)} (fail (circular_dependency cycle)) (done order)
      differ cycle order e = cc
