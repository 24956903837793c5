-- ===== src/Core/Graph/Total.antt =====
-- The fuel of `resolve_order` is enough, and the walk fails for cyclic graphs only.
use nivasa.Prelude.{
  and_run-ne-none, Bool-cases, Option-cases, length, mem, insert_set, lookup, keys, mem-keys,
  count_outside, count_outside-lt, Run, ℕ, zero, suc, ◌<◌, ◌≡◌, refl, sym, ◌∙◌, subst, ◌≢◌, inl,
  inr, false, none, some, List, [], ◌∷◌, arith,
}
use nivasa.Core.Graph.{
  DiError, Node, DependencyGraph, Walk, start, each_dependency, enter, run_node, visit, dfs,
  each_root, resolve_order,
}
use nivasa.Core.Graph.Visit.{Inv, IsSound, enter-Inv}
use nivasa.Core.Graph.Order.{dfs-IsSound, clear, start-Inv}

module _ (self : DependencyGraph) where
  each_dependency_total :
      (go : ℕ → Walk → Run DiError Walk) (deps open_ids : List ℕ) (walk : Walk)
      → IsSound self go
      → ((current : ℕ) (w : Walk) → Inv self w → w.visiting ≡ open_ids → go current w ≢ none)
      → Inv self walk
      → walk.visiting ≡ open_ids
      → each_dependency go deps walk ≢ none
  unfolding each_dependency
  each_dependency_total go [] open_ids walk sound total i e = λ h. cc
  each_dependency_total go (dep ∷ deps) open_ids walk sound total i e =
      and_run-ne-none (go dep walk) (each_dependency go deps) (total dep walk i e) λ middle run.
        let p = (sound dep walk middle i run).0 in
        each_dependency_total go deps open_ids middle sound total p.inv (p.same_visiting ∙ e)

  visit_total :
      (fuel current : ℕ) (node : Node) (walk : Walk)
      → lookup current self ≡ some node
      → ((c : ℕ) (w : Walk)
          → Inv self w
          → count_outside (keys self) w.visiting < fuel
          → dfs self fuel c w ≢ none)
      → Inv self walk
      → count_outside (keys self) walk.visiting < suc fuel
      → visit (dfs self fuel) current node walk ≢ none
  unfolding visit run_node
  visit_total fuel current node walk registered total i bound =
      elim (Bool-cases (mem current walk.visiting)) [
        | inl g ↦ rw g (λ h. cc)
        | inr g ↦ elim (Bool-cases (mem current walk.visited)) [
          | inl v ↦ rw g (rw v (λ h. cc))
          | inr v ↦ rw g (rw v (rw (← opened g) (and_run-ne-none _ _ (loop v g) (λ a e h. cc))))
        ]
      ]
    where
      opened :
          mem current walk.visiting ≡ false
          → insert_set current walk.visiting ≡ current ∷ walk.visiting
      opened g = rw g refl

      smaller :
          mem current walk.visiting ≡ false
          → count_outside (keys self) (current ∷ walk.visiting) < fuel
      smaller g = omega (
        arith,
        count_outside-lt (keys self) walk.visiting current
            (mem-keys current self ∙ rw registered refl) g,
      )

      loop :
          mem current walk.visited ≡ false
          → mem current walk.visiting ≡ false
          → each_dependency (dfs self fuel) node.dependencies (enter current node walk) ≢ none
      loop v g =
          each_dependency_total (dfs self fuel) node.dependencies (current ∷ walk.visiting)
            (enter current node walk) (dfs-IsSound self fuel)
            (λ c w j e.
              total c w j (subst (λ l. count_outside (keys self) l < fuel) (sym e) (smaller g)))
            (enter-Inv self current node registered walk i v g) (opened g)

  dfs_total :
      (fuel current : ℕ) (walk : Walk)
      → Inv self walk
      → count_outside (keys self) walk.visiting < fuel
      → dfs self fuel current walk ≢ none
  unfolding dfs
  dfs_total zero current walk i bound = absurd (omega arith)
  dfs_total (suc fuel) current walk i bound = elim (Option-cases (lookup current self)) [
    | inl missing ↦ rw (missing, dfs) (λ h. cc)
    | inr (node, found) ↦
        rw (found, dfs) (visit_total fuel current node walk found (dfs_total fuel) i bound)
  ]

  each_root_total :
      (fuel : ℕ) (ids : List ℕ) (walk : Walk)
      → Inv self walk
      → walk.visiting ≡ []
      → count_outside (keys self) [] < fuel
      → each_root self fuel ids walk ≢ none
  unfolding each_root
  each_root_total fuel [] walk i e bound = λ h. cc
  each_root_total fuel (id ∷ ids) walk i e bound = elim (Bool-cases (mem id walk.visited)) [
    | inl v ↦ rw v (each_root_total fuel ids walk i e bound)
    | inr v ↦
        let root : Walk = record walk { path = [] } in
        rw v (
          and_run-ne-none (dfs self fuel id root) (each_root self fuel ids)
            (dfs_total fuel id root (clear self walk i)
              (subst (λ l. count_outside (keys self) l < fuel) (sym e) bound))
            λ middle run.
              let p = (dfs-IsSound self fuel id root middle (clear self walk i) run).0 in
              each_root_total fuel ids middle p.inv (p.same_visiting ∙ e) bound)
  ]

  outside_nothing : (m : DependencyGraph) → count_outside (keys m) [] < suc (length m)
  outside_nothing [] = omega arith
  outside_nothing ((k, node) ∷ m) = omega (arith, outside_nothing m)

  -- `resolve_order` terminates: with one unit of fuel more than nodes it has an answer.
  pub resolve_order_total : resolve_order self ≢ none
  unfolding resolve_order
  resolve_order_total =
      and_run-ne-none _ _
        (each_root_total (suc (length self)) (keys self) start (start-Inv self) refl
          (outside_nothing self))
        (λ walk e h. cc)
