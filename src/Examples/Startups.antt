-- ===== src/Examples/Startups.antt =====
-- Tests and witnesses for the order of initialisation: an application with two features that share
-- a module, two modules that import each other, and an import that is not registered.
use nivasa.Prelude.{
  is_some, Text, codes, insert_by, sort_by, mem, lookup, done, fail, ℕ, ◌≡◌, refl, ◌⊎◌, List, [],
  ◌∷◌,
}
use nivasa.Core.Graph.{resolve_order}
use nivasa.Core.Modules.{
  ModuleEntry, ModuleRegistry, ModuleRegistryError, missing_import, circular_import, empty_metadata,
}
use nivasa.Core.Modules.Imports.{
  import_resolve_order, each_import_root, import_roots, import_dfs, visit_module, each_import,
  follow_import,
}
use nivasa.Core.Modules.Imports.Reference.{Agrees}
use nivasa.Core.Modules.Imports.Order.{import_graph, import_resolve_order-Agrees}
use nivasa.Core.Modules.Imports.Missing.{HasImports, import_resolve_order-HasImports}
use nivasa.Core.Modules.Imports.Outcome.{ImportsFirst, ImportsRanked, import_resolve_order_lem}

abbrev importing : ℕ → Text → List ℕ → ℕ × ModuleEntry
importing id name imports = (
  id,
  record { type_id = id; type_name = name; metadata = record empty_metadata { imports = imports } },
)

abbrev shop : ModuleRegistry
shop =
    importing 1 (codes "App") (2 ∷ 3 ∷ [])
    ∷ importing 2 (codes "Orders") (4 ∷ [])
    ∷ importing 3 (codes "Carts") (4 ∷ [])
    ∷ importing 4 (codes "Shared") []
    ∷ []

abbrev knot : ModuleRegistry
knot = importing 1 (codes "A") (2 ∷ []) ∷ importing 2 (codes "B") (1 ∷ []) ∷ []

shop_order : import_resolve_order shop ≡ done (4 ∷ 2 ∷ 3 ∷ 1 ∷ [])
unfolding import_resolve_order each_import_root import_roots import_dfs visit_module each_import
    follow_import sort_by insert_by
shop_order = refl

knot_order : import_resolve_order knot ≡ fail (circular_import (codes "A") (codes "A -> B -> A"))
unfolding import_resolve_order each_import_root import_roots import_dfs visit_module each_import
    follow_import sort_by insert_by
knot_order = refl

-- Modules are taken by name, so "A" reports the missing import of "B" before its own.
lone_order :
    import_resolve_order
      (importing 1 (codes "A") (2 ∷ 9 ∷ []) ∷ importing 2 (codes "B") (8 ∷ []) ∷ [])
    ≡ fail (missing_import (codes "B") 8)
unfolding import_resolve_order each_import_root import_roots import_dfs visit_module each_import
    follow_import sort_by insert_by
lone_order = refl

import_resolve_order-Agrees_example :
    Agrees (import_resolve_order shop) (resolve_order (import_graph shop))
import_resolve_order-Agrees_example =
    import_resolve_order-Agrees shop
      ((refl, (refl, (refl, (refl, tt)))), (refl, (refl, (refl, (refl, tt)))))
      ((refl, (refl, tt)), ((refl, tt), ((refl, tt), (tt, tt))))

import_resolve_order_lem_example :
    ((order : List ℕ) × (import_resolve_order shop ≡ done order)
      × ImportsFirst shop [] order
      × ((id : ℕ) → mem id order ≡ is_some (lookup id shop)))
    ⊎ ((module_name cycle : Text) × (import_resolve_order shop
          ≡ fail (circular_import module_name cycle))
        × ((rank : ℕ → ℕ) → ¬ ImportsRanked shop rank))
import_resolve_order_lem_example =
    import_resolve_order_lem shop
      ((refl, (refl, (refl, (refl, tt)))), (refl, (refl, (refl, (refl, tt)))))
      ((refl, (refl, tt)), ((refl, tt), ((refl, tt), (tt, tt))))

-- `Orders` imports a module that is not registered.
abbrev missing_shared : ModuleRegistry
missing_shared = importing 1 (codes "App") (2 ∷ []) ∷ importing 2 (codes "Orders") (4 ∷ []) ∷ []

-- The registry with a missing import has an error.
missing_shared_order :
    import_resolve_order missing_shared ≡ fail (missing_import (codes "Orders") 4)
unfolding import_resolve_order each_import_root import_roots import_dfs visit_module each_import
    follow_import sort_by insert_by
missing_shared_order = refl

import_resolve_order-HasImports_example :
    ((order : List ℕ) × (import_resolve_order missing_shared ≡ done order)
      × ((id : ℕ) → HasImports missing_shared id))
    ⊎ ((error : ModuleRegistryError) × (import_resolve_order missing_shared ≡ fail error))
import_resolve_order-HasImports_example =
    import_resolve_order-HasImports missing_shared ((refl, (refl, tt)), (refl, (refl, tt)))
