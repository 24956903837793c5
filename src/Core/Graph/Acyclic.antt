-- ===== src/Core/Graph/Acyclic.antt =====
-- `resolve_order` succeeds exactly on graphs without cycles.
use nivasa.Prelude.{
  Bool-cases, Option-cases, length, All, ok, err, mem, insert_set, lookup, keys, Run, and_run, done,
  ℕ, zero, suc, ◌≤◌, ◌<◌, ◌≡◌, refl, sym, ap, ◌∙◌, subst, ◌≢◌, inl, inr, true, false, none, some,
  List, [], ◌∷◌, arith,
}
use nivasa.Core.Graph.{
  DiError, Node, DependencyGraph, Walk, start, each_dependency, enter, run_node, visit, dfs,
  each_root, resolve_order,
}
use nivasa.Core.Graph.Visit.{is_registered, dependencies_of, Inv, IsSound, enter-Inv}
use nivasa.Core.Graph.Order.{dfs-IsSound, clear, start-Inv}
use nivasa.Core.Graph.Total.{resolve_order_total}

-- `rank` puts each registered dependency below its node, so the graph has no cycle.
abbrev pub IsRanked : DependencyGraph → (ℕ → ℕ) → Type 0
IsRanked self rank =
    (id : ℕ)
    → All (λ dep. is_registered self dep ≡ true → rank dep < rank id)
        (dependencies_of (lookup id self))

-- The run does not fail.
abbrev NoFailure {ℓ} : {A : Type ℓ} → Run DiError A → Type 0
NoFailure none = Unit
NoFailure (some (ok a)) = Unit
NoFailure (some (err e)) = ⊥

NoFailure-and_run {ℓ κ} :
    {A : Type ℓ} {B : Type κ} (m : Run DiError A) (f : A → Run DiError B)
    → NoFailure m
    → ((a : A) → m ≡ done a → NoFailure (f a))
    → NoFailure (and_run m f)
NoFailure-and_run none f h k = tt
NoFailure-and_run (some (err e)) f h k = h
NoFailure-and_run (some (ok a)) f h k = k a refl

module _ (self : DependencyGraph) (rank : ℕ → ℕ) (ranked : IsRanked self rank) where
  -- Every open node lies above the bound.
  abbrev Above : ℕ → List ℕ → Type 0
  Above bound open_ids = All (λ g. bound ≤ rank g) open_ids

  not-mem-Above :
      (c : ℕ) (open_ids : List ℕ) → Above (suc (rank c)) open_ids → mem c open_ids ≡ false
  not-mem-Above c [] h = refl
  not-mem-Above c (g ∷ gs) (h, hs) =
      let differ : g ≢ c = λ e. clash e h in ground (arith, not-mem-Above c gs hs)
    where
      clash : g ≡ c → suc (rank c) ≤ rank g → ⊥
      clash e k = let f : rank g ≡ rank c = ap rank e in omega arith

  Above-weaken : (a b : ℕ) (ids : List ℕ) → a ≤ b → Above b ids → Above a ids
  Above-weaken a b [] h k = tt
  Above-weaken a b (g ∷ gs) h (k, ks) = (omega arith, Above-weaken a b gs h ks)

  -- A call on a registered node below every open node does not fail.
  abbrev IsSafe : (ℕ → Walk → Run DiError Walk) → Type 0
  IsSafe go =
      (c : ℕ) (w : Walk)
      → Inv self w
      → (is_registered self c ≡ true → Above (suc (rank c)) w.visiting)
      → NoFailure (go c w)

  each_dependency_safe :
      (go : ℕ → Walk → Run DiError Walk) (deps : List ℕ) (walk : Walk)
      → IsSound self go
      → IsSafe go
      → Inv self walk
      → All (λ dep. is_registered self dep ≡ true → Above (suc (rank dep)) walk.visiting) deps
      → NoFailure (each_dependency go deps walk)
  unfolding each_dependency
  each_dependency_safe go [] walk sound safe i h = tt
  each_dependency_safe go (dep ∷ deps) walk sound safe i (h, hs) =
      NoFailure-and_run (go dep walk) (each_dependency go deps) (safe dep walk i h) λ middle run.
        let p = (sound dep walk middle i run).0 in
        each_dependency_safe go deps middle sound safe p.inv (
          subst (λ l. All (λ d. is_registered self d ≡ true → Above (suc (rank d)) l) deps)
            (sym p.same_visiting) hs)

  below_open :
      (c : ℕ) (open_ids deps : List ℕ)
      → Above (suc (rank c)) open_ids
      → All (λ dep. is_registered self dep ≡ true → rank dep < rank c) deps
      → All (λ dep. is_registered self dep ≡ true → Above (suc (rank dep)) (c ∷ open_ids)) deps
  below_open c open_ids [] a h = tt
  below_open c open_ids (dep ∷ deps) a (h, hs) = (
    λ r.
        let lt = h r in (lt, Above-weaken (suc (rank dep)) (suc (rank c)) open_ids (omega arith) a),
    below_open c open_ids deps a hs,
  )

  visit_safe :
      (fuel current : ℕ) (node : Node) (walk : Walk)
      → lookup current self ≡ some node
      → IsSafe (dfs self fuel)
      → Inv self walk
      → Above (suc (rank current)) walk.visiting
      → NoFailure (visit (dfs self fuel) current node walk)
  unfolding visit run_node
  visit_safe fuel current node walk registered safe i above =
      elim (Bool-cases (mem current walk.visited)) [
        | inl v ↦ rw closed (rw v tt)
        | inr v ↦ rw closed (rw v (rw (← opened) (NoFailure-and_run _ _ (loop v) (λ a e. tt))))
      ]
    where
      closed : mem current walk.visiting ≡ false
      closed = not-mem-Above current walk.visiting above

      opened : insert_set current walk.visiting ≡ current ∷ walk.visiting
      opened = rw closed refl

      loop :
          mem current walk.visited ≡ false
          → NoFailure (each_dependency (dfs self fuel) node.dependencies (enter current node walk))
      loop v =
          each_dependency_safe (dfs self fuel) node.dependencies (enter current node walk)
            (dfs-IsSound self fuel) safe (enter-Inv self current node registered walk i v closed)
            (rw opened (
              below_open current walk.visiting node.dependencies above
                (rw registered at (ranked current))))

  dfs-IsSafe : (fuel : ℕ) → IsSafe (dfs self fuel)
  unfolding dfs
  dfs-IsSafe zero c w i above = tt
  dfs-IsSafe (suc fuel) c w i above = elim (Option-cases (lookup c self)) [
    | inl missing ↦ rw (missing, dfs) tt
    | inr (node, found) ↦
        rw (found, dfs) (visit_safe fuel c node w found (dfs-IsSafe fuel) i (above (rw found refl)))
  ]

  each_root_safe :
      (fuel : ℕ) (ids : List ℕ) (walk : Walk)
      → Inv self walk
      → walk.visiting ≡ []
      → NoFailure (each_root self fuel ids walk)
  unfolding each_root
  each_root_safe fuel [] walk i e = tt
  each_root_safe fuel (id ∷ ids) walk i e = elim (Bool-cases (mem id walk.visited)) [
    | inl v ↦ rw v (each_root_safe fuel ids walk i e)
    | inr v ↦
        let root : Walk = record walk { path = [] } in
        rw v (
          NoFailure-and_run (dfs self fuel id root) (each_root self fuel ids)
            (dfs-IsSafe fuel id root (clear self walk i)
              (λ r. subst (Above (suc (rank id))) (sym e) tt))
            λ middle run.
              let p = (dfs-IsSound self fuel id root middle (clear self walk i) run).0 in
              each_root_safe fuel ids middle p.inv (p.same_visiting ∙ e))
  ]

  resolve_order_safe : NoFailure (resolve_order self)
  unfolding resolve_order
  resolve_order_safe =
      NoFailure-and_run _ _
        (each_root_safe (suc (length self)) (keys self) start (start-Inv self) refl) (λ w e. tt)

  -- On a graph without cycles `resolve_order` succeeds.
  pub resolve_order_of_IsRanked : (order : List ℕ) × (resolve_order self ≡ done order)
  resolve_order_of_IsRanked = go (resolve_order self) refl resolve_order_safe
    where
      go :
          (r : Run DiError (List ℕ))
          → resolve_order self ≡ r
          → NoFailure r
          → (order : List ℕ) × (resolve_order self ≡ done order)
      go none e h = absurd (resolve_order_total self e)
      go (some (err d)) e h = absurd h
      go (some (ok order)) e h = (order, e)
