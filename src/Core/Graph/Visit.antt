-- ===== src/Core/Graph/Visit.antt =====
-- The invariant of the walk of `DependencyGraph::dfs`, and its loop over dependencies.
use nivasa.Prelude.{
  ◌==◌, ==_iff, ==_refl, Bool-cases, is_some, pop, pop-snoc, All, mem, insert_set, remove_set,
  remove_set_head, lookup, Run, done, and_run-eq-done, ℕ, ◌≡◌, refl, sym, ap, ◌∙◌, subst, inl, inr,
  Bool, true, false, Option, none, some, List, [], ◌∷◌, ◌++◌, arith,
}
use mathlib.Core.List.{reverse, reverse-cons}
use nivasa.Core.Graph.{DiError, Node, DependencyGraph, Walk, each_dependency, enter, leave}

abbrev pub dependencies_of : Option Node → List ℕ
dependencies_of none = []
dependencies_of (some node) = node.dependencies

module _ (self : DependencyGraph) where
  abbrev pub is_registered : ℕ → Bool
  is_registered id = is_some (lookup id self)

  -- The registered dependencies of the node lie in the set.
  abbrev pub DependenciesIn : List ℕ → ℕ → Type 0
  DependenciesIn set id =
      All (λ dep. is_registered dep ≡ true → mem dep set ≡ true) (dependencies_of (lookup id self))

  -- Nodes in the order of completion, the last one first.
  abbrev pub IsClosed : List ℕ → Type 0
  IsClosed [] = Unit
  IsClosed (id ∷ ids) =
      (mem id ids ≡ false) × (is_registered id ≡ true) × DependenciesIn ids id × IsClosed ids

  pub record Inv (walk : Walk) : Type 0 where
    pub closed : IsClosed walk.visited
    pub ordered : walk.order ≡ reverse walk.visited
    pub apart : (id : ℕ) → mem id walk.visited ≡ true → mem id walk.visiting ≡ false

  pub record Post (before after : Walk) : Type 0 where
    pub inv : Inv after
    pub same_visiting : after.visiting ≡ before.visiting
    pub same_path : after.path ≡ before.path
    pub extends : (id : ℕ) → mem id before.visited ≡ true → mem id after.visited ≡ true

  -- What a call on `current` establishes.
  abbrev pub Reached : ℕ → Walk → Walk → Type 0
  Reached current before after =
      Post before after × (is_registered current ≡ true → mem current after.visited ≡ true)

  abbrev pub IsSound : (ℕ → Walk → Run DiError Walk) → Type 0
  IsSound go =
      (current : ℕ) (before after : Walk)
      → Inv before
      → go current before ≡ done after
      → Reached current before after

  pub Post-trans : {a b c : Walk} → Post a b → Post b c → Post a c
  Post-trans p q = record {
    inv = q.inv;
    same_visiting = q.same_visiting ∙ p.same_visiting;
    same_path = q.same_path ∙ p.same_path;
    extends = λ id h. q.extends id (p.extends id h);
  }

  pub Post-refl : {a : Walk} → Inv a → Post a a
  Post-refl i = record { inv = i; same_visiting = refl; same_path = refl; extends = λ id h. h }

  abbrev pub AllIn : List ℕ → Walk → Type 0
  AllIn deps walk = All (λ dep. is_registered dep ≡ true → mem dep walk.visited ≡ true) deps

  pub each_dependency_sound :
      (go : ℕ → Walk → Run DiError Walk) (deps : List ℕ) (before after : Walk)
      → IsSound go
      → Inv before
      → each_dependency go deps before ≡ done after
      → Post before after × AllIn deps after
  unfolding each_dependency
  each_dependency_sound go [] before after sound i e =
      let same : before ≡ after = ground arith in (subst (Post before) same (Post-refl i), tt)
  each_dependency_sound go (dep ∷ deps) before after sound i e =
      let (middle, first_run, later) = and_run-eq-done (go dep before) _ e in
      let (p, reached) = sound dep before middle i first_run in
      let (q, rest) = each_dependency_sound go deps middle after sound p.inv later in
      (Post-trans p q, ((λ h. q.extends dep (reached h)), rest))

  module _ (current : ℕ) (node : Node) (registered : lookup current self ≡ some node) where
    pub enter-Inv :
        (walk : Walk)
        → Inv walk
        → mem current walk.visited ≡ false
        → mem current walk.visiting ≡ false
        → Inv (enter current node walk)
    enter-Inv walk i v g = record {
      closed = i.closed;
      ordered = i.ordered;
      apart = λ id h. apart id h;
    }
      where
        apart :
            (id : ℕ)
            → mem id walk.visited ≡ true
            → mem id (insert_set current walk.visiting) ≡ false
        apart id h = ground (arith, i.apart id h, ==_iff current id)

    -- After the dependencies, `leave` takes the node from the open ones to the completed ones.
    pub leave_lem :
        (walk after : Walk)
        → mem current walk.visiting ≡ false
        → Post (enter current node walk) after
        → DependenciesIn after.visited current
        → Reached current walk (leave current after)
    leave_lem walk after g p deps = (
      record {
        inv = record {
          closed = rw same_visited (fresh, rw registered refl, deps, p.inv.closed);
          ordered = rw same_visited (
              ap (λ l. l ++ (current ∷ [])) p.inv.ordered
              ∙ sym (reverse-cons current after.visited));
          apart = λ id h. rw same_visiting (apart id (rw same_visited at h));
        };
        same_visiting = same_visiting;
        same_path = ap pop p.same_path ∙ pop-snoc walk.path node.type_name;
        extends = λ id h. rw same_visited (later id (p.extends id h));
      },
      λ h. rw same_visited (found (==_refl current)),
    )
      where
        opened : after.visiting ≡ current ∷ walk.visiting
        opened = p.same_visiting ∙ rw g refl

        fresh : mem current after.visited ≡ false
        fresh = elim (Bool-cases (mem current after.visited)) [
          | inr h ↦ h
          | inl h ↦
              let e : mem current (current ∷ walk.visiting) ≡ false =
                subst (λ l. mem current l ≡ false) opened (p.inv.apart current h) in
              ground (arith, ==_refl current)
        ]

        same_visited : insert_set current after.visited ≡ current ∷ after.visited
        same_visited = rw fresh refl

        same_visiting : remove_set current after.visiting ≡ walk.visiting
        same_visiting = rw opened (remove_set_head current walk.visiting g)

        apart : (id : ℕ) → mem id (current ∷ after.visited) ≡ true → mem id walk.visiting ≡ false
        apart id h = elim (Bool-cases (current == id)) [
          | inl e ↦ subst (λ c. mem c walk.visiting ≡ false) ((==_iff current id).0 e) g
          | inr e ↦
              let k : mem id (current ∷ walk.visiting) ≡ false =
                subst (λ l. mem id l ≡ false) opened (p.inv.apart id (rw e at h)) in
              rw e at k
        ]

        later : (id : ℕ) → mem id after.visited ≡ true → mem id (current ∷ after.visited) ≡ true
        later id h = ground arith

        found : (current == current) ≡ true → mem current (current ∷ after.visited) ≡ true
        found e = rw e refl
