-- ===== src/Examples/Graphs.antt =====
-- Examples for the modules below Core.
use nivasa.Prelude.{codes, mem, done, fail, ℕ, ◌≡◌, refl, ◌≢◌, ◌↔◌, none, List, [], ◌∷◌}
use nivasa.Core.Graph.{
  circular_dependency, DependencyGraph, each_dependency, run_node, visit, dfs, each_root,
  resolve_order, add_node, new,
}
use nivasa.Core.Graph.Visit.{is_registered}
use nivasa.Core.Graph.Order.{IsOrdered, resolve_order-IsOrdered}
use nivasa.Core.Graph.Total.{resolve_order_total}
use nivasa.Core.Graph.Acyclic.{IsRanked}
use nivasa.Core.Graph.Ranked.{resolve_order_iff}

graphs : Unit {0}
unfolding each_dependency run_node visit dfs each_root resolve_order add_node
graphs = tt

-- Node 1 depends on 2 and 3, and both on 4; 9 is not registered.
abbrev diamond : DependencyGraph
diamond =
    (1, record { type_name = codes "A"; dependencies = 2 ∷ 3 ∷ [] })
    ∷ (2, record { type_name = codes "B"; dependencies = 4 ∷ 9 ∷ [] })
    ∷ (3, record { type_name = codes "C"; dependencies = 4 ∷ [] })
    ∷ (4, record { type_name = codes "D"; dependencies = [] })
    ∷ []

diamond_order : resolve_order diamond ≡ done (4 ∷ 2 ∷ 3 ∷ 1 ∷ [])
unfolding graphs
diamond_order = refl

cyclic_order :
    resolve_order (add_node (add_node new 1 (codes "A") (2 ∷ [])) 2 (codes "B") (1 ∷ []))
    ≡ fail (circular_dependency (codes "A -> B -> A"))
unfolding graphs
cyclic_order = refl

resolve_order-IsOrdered_example :
    IsOrdered diamond [] (4 ∷ 2 ∷ 3 ∷ 1 ∷ [])
    × (mem 3 (4 ∷ 2 ∷ 3 ∷ 1 ∷ []) ≡ is_registered diamond 3)
resolve_order-IsOrdered_example =
    resolve_order-IsOrdered diamond (4 ∷ 2 ∷ 3 ∷ 1 ∷ []) 3 diamond_order

resolve_order_total_example : resolve_order diamond ≢ none
resolve_order_total_example = resolve_order_total diamond

resolve_order_iff_example :
    ((order : List ℕ) × (resolve_order diamond ≡ done order))
    ↔ ((rank : ℕ → ℕ) × IsRanked diamond rank)
resolve_order_iff_example = resolve_order_iff diamond
