-- ===== src/Core/Graph/Ranked.antt =====
-- A graph that `resolve_order` orders has no cycle.
use nivasa.Prelude.{
  ◌==◌, if◌then◌else◌, ==_iff, ==_refl, Bool-cases, length, All, All-map, mem, lookup, done, ℕ, suc,
  ◌≤◌, ◌<◌, ◌≡◌, refl, sym, subst, ◌↔◌, inl, inr, true, false, Option, none, some, List, [], ◌∷◌,
  arith,
}
use nivasa.Core.Graph.{Node, DependencyGraph, resolve_order}
use nivasa.Core.Graph.Visit.{is_registered, dependencies_of, IsClosed}
use nivasa.Core.Graph.Order.{resolve_order_visited}
use nivasa.Core.Graph.Acyclic.{IsRanked, resolve_order_of_IsRanked}

-- How many nodes were completed when the node was.
rank_in : List ℕ → ℕ → ℕ
rank_in [] id = 0
rank_in (x ∷ xs) id = if x == id then suc (length xs) else rank_in xs id

rank_in-le : (ids : List ℕ) (id : ℕ) → rank_in ids id ≤ length ids
unfolding rank_in
rank_in-le [] id = omega arith
rank_in-le (x ∷ xs) id = ground (arith, rank_in-le xs id)

module _ (self : DependencyGraph) where
  abbrev Lower : List ℕ → ℕ → ℕ → Type 0
  Lower ids id dep =
      is_registered self dep ≡ true → (mem dep ids ≡ true) × (rank_in ids dep < rank_in ids id)

  keeps_rank :
      (x dep : ℕ) (xs : List ℕ)
      → mem x xs ≡ false
      → mem dep xs ≡ true
      → (rank_in (x ∷ xs) dep ≡ rank_in xs dep) × (mem dep (x ∷ xs) ≡ true)
  unfolding rank_in
  keeps_rank x dep xs fresh m = elim (Bool-cases (x == dep)) [
    | inl e ↦ cc (subst (λ d. mem d xs ≡ true) (sym ((==_iff x dep).0 e)) m)
    | inr e ↦ (rw e refl, rw e m)
  ]

  Lower-of_IsClosed :
      (ids : List ℕ) (id : ℕ)
      → IsClosed self ids
      → mem id ids ≡ true
      → All (Lower ids id) (dependencies_of (lookup id self))
  unfolding rank_in
  Lower-of_IsClosed [] id h m = cc
  Lower-of_IsClosed (x ∷ xs) id (fresh, registered, deps, h) m = elim (Bool-cases (x == id)) [
    | inl e ↦
        subst (λ k. All (Lower (x ∷ xs) k) (dependencies_of (lookup k self))) ((==_iff x id).0 e)
          (All-map (dependencies_of (lookup x self)) at_head deps)
    | inr e ↦
        All-map (dependencies_of (lookup id self)) (in_tail e)
          (Lower-of_IsClosed xs id h (rw e at m))
  ]
    where
      at_head :
          (dep : ℕ) → (is_registered self dep ≡ true → mem dep xs ≡ true) → Lower (x ∷ xs) x dep
      at_head dep f r =
          let (same, m') = keeps_rank x dep xs fresh (f r) in
          (m', rw same (rw (==_refl x) (omega (arith, rank_in-le xs dep))))

      in_tail : (x == id) ≡ false → (dep : ℕ) → Lower xs id dep → Lower (x ∷ xs) id dep
      in_tail e dep f r =
          let (m', lt) = f r in
          let (same, m'') = keeps_rank x dep xs fresh m' in (m'', rw same (rw e lt))

  IsRanked-of_IsClosed :
      (ids : List ℕ)
      → IsClosed self ids
      → ((id : ℕ) → is_registered self id ≡ true → mem id ids ≡ true)
      → IsRanked self (rank_in ids)
  IsRanked-of_IsClosed ids h complete id = go (lookup id self) refl
    where
      go :
          (o : Option Node)
          → lookup id self ≡ o
          → All
              (λ dep. is_registered self dep ≡ true → rank_in ids dep < rank_in ids id)
              (dependencies_of o)
      go none e = tt
      go (some node) e =
          All-map node.dependencies (λ dep f r. (f r).1)
            (subst (λ o. All (Lower ids id) (dependencies_of o)) e
              (Lower-of_IsClosed ids id h (complete id (rw e refl))))

  -- `resolve_order` succeeds exactly on graphs whose nodes can be ranked above their registered
  -- dependencies, which are the graphs without cycles.
  pub resolve_order_iff :
      ((order : List ℕ) × (resolve_order self ≡ done order)) ↔ ((rank : ℕ → ℕ) × IsRanked self rank)
  resolve_order_iff = (
    λ (order, e).
        let (ids, closed, _, complete) = resolve_order_visited self order e in
        (rank_in ids, IsRanked-of_IsClosed ids closed complete),
    λ (rank, ranked). resolve_order_of_IsRanked self rank ranked,
  )
