-- ===== src/Core/Graph/Order.antt =====
-- What a successful `resolve_order` returns.
use nivasa.Prelude.{
  ◌==◌, ==_iff, Bool-cases, Option-cases, is_some, length, pop, pop-snoc, All, Text, mem, lookup,
  keys, mem-keys, Run, done, and_run-eq-done, ℕ, zero, suc, ◌≡◌, refl, sym, ap, ◌∙◌, subst, inl,
  inr, Bool, true, false, ◌||◌, Option, none, some, List, [], ◌∷◌, ◌++◌, arith,
}
use mathlib.Core.List.{reverse, reverse_aux}
use nivasa.Core.Graph.{
  DiError, Node, DependencyGraph, Walk, start, each_dependency, enter, leave, run_node, visit, dfs,
  each_root, resolve_order,
}
use nivasa.Core.Graph.Visit.{
  is_registered, DependenciesIn, IsClosed, Inv, Post, Reached, IsSound, AllIn, Post-refl,
  each_dependency_sound, enter-Inv, leave_lem,
}

module _ (self : DependencyGraph) where
  run_node_sound :
      (go : ℕ → Walk → Run DiError Walk) (current : ℕ) (node : Node) (before after : Walk)
      → IsSound self go
      → lookup current self ≡ some node
      → Inv self before
      → mem current before.visited ≡ false
      → mem current before.visiting ≡ false
      → run_node go current node before ≡ done after
      → Reached self current before after
  unfolding run_node
  run_node_sound go current node before after sound registered i v g e =
      let (middle, run, last_step) =
        and_run-eq-done (each_dependency go node.dependencies (enter current node before)) _ e in
      let (p, deps) =
        each_dependency_sound self go node.dependencies (enter current node before) middle sound
          (enter-Inv self current node registered before i v g) run in
      subst (Reached self current before) (finished middle last_step)
        (leave_lem self current node registered before middle g p (rw registered deps))
    where
      finished :
          (middle : Walk)
          → ◌≡◌ {A = Run DiError Walk} (done (leave current middle)) (done after)
          → leave current middle ≡ after
      finished middle h = ground arith

  visit_sound :
      (go : ℕ → Walk → Run DiError Walk) (current : ℕ) (node : Node) (before after : Walk)
      → IsSound self go
      → lookup current self ≡ some node
      → Inv self before
      → visit go current node before ≡ done after
      → Reached self current before after
  unfolding visit
  visit_sound go current node before after sound registered i e =
      elim (Bool-cases (mem current before.visiting)) [
        | inl g ↦ cc (rw g at e)
        | inr g ↦ elim (Bool-cases (mem current before.visited)) [
          | inl v ↦ subst (Reached self current before) (known g v) (stay v)
          | inr v ↦
              run_node_sound go current node before after sound registered i v g
                (rw v at (rw g at e))
        ]
      ]
    where
      pushed : List Text
      pushed = before.path ++ (node.type_name ∷ [])

      known :
          mem current before.visiting ≡ false
          → mem current before.visited ≡ true
          → record before { path = pop pushed } ≡ after
      known g v = ground arith

      stay :
          mem current before.visited ≡ true
          → Reached self current before (record before { path = pop pushed })
      stay v = (
        record {
          inv = record { closed = i.closed; ordered = i.ordered; apart = i.apart };
          same_visiting = refl;
          same_path = pop-snoc before.path node.type_name;
          extends = λ id h. h;
        },
        λ h. v,
      )

  pub dfs-IsSound : (fuel : ℕ) → IsSound self (dfs self fuel)
  unfolding dfs
  dfs-IsSound zero current before after i e = cc
  dfs-IsSound (suc fuel) current before after i e = elim (Option-cases (lookup current self)) [
    | inl missing ↦
        let same : before ≡ after = ground arith in
        (subst (Post self before) same (Post-refl self i), (λ h. absurd (none_some missing h)))
    | inr (node, found) ↦
        visit_sound (dfs self fuel) current node before after (dfs-IsSound fuel) found i
          (rw (found, dfs) at e)
  ]
    where
      none_some : {A : Type 0} {o : Option A} → o ≡ none → is_some o ≡ true → ⊥
      none_some e h = ground arith

  pub clear : (walk : Walk) → Inv self walk → Inv self (record walk { path = [] })
  clear walk i = record { closed = i.closed; ordered = i.ordered; apart = i.apart }

  each_root_sound :
      (fuel : ℕ) (ids : List ℕ) (before after : Walk)
      → Inv self before
      → each_root self fuel ids before ≡ done after
      → Inv self after
        × ((id : ℕ) → mem id before.visited ≡ true → mem id after.visited ≡ true)
        × AllIn self ids after
  unfolding each_root
  each_root_sound fuel [] before after i e =
      let same : before ≡ after = ground arith in
      subst
        (λ w.
          Inv self w
          × ((id : ℕ) → mem id before.visited ≡ true → mem id w.visited ≡ true)
          × Unit {0})
        same (i, (λ id h. h), tt)
  each_root_sound fuel (id ∷ ids) before after i e = elim (Bool-cases (mem id before.visited)) [
    | inl v ↦
        let (j, extends, rest) = each_root_sound fuel ids before after i (rw v at e) in
        (j, extends, ((λ h. extends id v), rest))
    | inr v ↦
        let (middle, run, later) =
          and_run-eq-done (dfs self fuel id (record before { path = [] })) _ (rw v at e) in
        let (p, reached) =
          dfs-IsSound fuel id (record before { path = [] }) middle (clear before i) run in
        let (j, extends, rest) = each_root_sound fuel ids middle after p.inv later in
        (j, λ k h. extends k (p.extends k h), ((λ h. extends id (reached h)), rest))
  ]

  -- Each node stands behind its registered dependencies, is registered, and stands there once.
  abbrev pub IsOrdered : List ℕ → List ℕ → Type 0
  IsOrdered seen [] = Unit
  IsOrdered seen (id ∷ ids) =
      (mem id seen ≡ false)
      × (is_registered self id ≡ true)
      × DependenciesIn self seen id
      × IsOrdered (id ∷ seen) ids

  IsClosed→IsOrdered :
      (done_ids later : List ℕ)
      → IsClosed self done_ids
      → IsOrdered done_ids later
      → IsOrdered [] (reverse_aux done_ids later)
  IsClosed→IsOrdered [] later h k = k
  IsClosed→IsOrdered (id ∷ ids) later (fresh, registered, deps, h) k =
      IsClosed→IsOrdered ids (id ∷ later) h (fresh, registered, deps, k)

  mem-reverse_aux :
      (id : ℕ) (xs ys : List ℕ) → mem id (reverse_aux xs ys) ≡ (mem id xs || mem id ys)
  mem-reverse_aux id [] ys = refl
  mem-reverse_aux id (x ∷ xs) ys = ground (arith, mem-reverse_aux id xs (x ∷ ys))

  pub registered_of_IsClosed :
      (id : ℕ) (ids : List ℕ) → IsClosed self ids → mem id ids ≡ true → is_registered self id ≡ true
  registered_of_IsClosed id [] h m = cc
  registered_of_IsClosed id (x ∷ xs) (fresh, registered, deps, h) m = elim (Bool-cases (x == id)) [
    | inl e ↦ subst (λ k. is_registered self k ≡ true) ((==_iff x id).0 e) registered
    | inr e ↦ registered_of_IsClosed id xs h (rw e at m)
  ]

  at_member : (P : ℕ → Type 0) (id : ℕ) (ids : List ℕ) → All P ids → mem id ids ≡ true → P id
  at_member P id [] h m = cc
  at_member P id (x ∷ xs) (p, h) m = elim (Bool-cases (x == id)) [
    | inl e ↦ subst P ((==_iff x id).0 e) p
    | inr e ↦ at_member P id xs h (rw e at m)
  ]

  pub start-Inv : Inv self start
  start-Inv = record { closed = tt; ordered = refl; apart = λ id h. refl }

  -- The completed nodes of a successful run.
  pub resolve_order_visited :
      (order : List ℕ)
      → resolve_order self ≡ done order
      → (ids : List ℕ) × IsClosed self ids
        × (order ≡ reverse ids)
        × ((id : ℕ) → is_registered self id ≡ true → mem id ids ≡ true)
  unfolding resolve_order
  resolve_order_visited order e =
      let (walk, run, last_step) =
        and_run-eq-done (each_root self (suc (length self)) (keys self) start) _ e in
      let (i, _, all_in) =
        each_root_sound (suc (length self)) (keys self) start walk start-Inv run in
      (
        walk.visited,
        i.closed,
        sym (result walk last_step) ∙ i.ordered,
        λ id h.
            at_member (λ k. is_registered self k ≡ true → mem k walk.visited ≡ true) id (keys self)
              all_in (mem-keys id self ∙ h) h,
      )
    where
      result :
          (walk : Walk)
          → ◌≡◌ {A = Run DiError (List ℕ)} (done walk.order) (done order)
          → walk.order ≡ order
      result walk h = cc

  -- A successful `resolve_order` lists exactly the registered nodes, each once, and each behind its
  -- registered dependencies.
  pub resolve_order-IsOrdered :
      (order : List ℕ) (id : ℕ)
      → resolve_order self ≡ done order
      → IsOrdered [] order × (mem id order ≡ is_registered self id)
  resolve_order-IsOrdered order id e =
      let (ids, closed, reversed, complete) = resolve_order_visited order e in
      (
        subst (IsOrdered []) (sym reversed) (IsClosed→IsOrdered ids [] closed tt),
        ap (mem id) reversed
            ∙ mem-reverse_aux id ids []
            ∙ same (mem id ids) (is_registered self id) (registered_of_IsClosed id ids closed)
                (complete id),
      )
    where
      same : (a b : Bool) → (a ≡ true → b ≡ true) → (b ≡ true → a ≡ true) → (a || false) ≡ b
      same true b f g = sym (f refl)
      same false true f g = g refl
      same false false f g = refl
