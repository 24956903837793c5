-- ===== src/Core/Graph.antt =====
-- `DependencyGraph` of nivasa-core/src/di/graph.rs. The nodes stand in the order in which the hash
-- map iterates over them, which the theorems leave open. `dfs` recurs on fuel, one more than the
-- nodes; `none` means that it ran out, which Core.Graph.Total excludes.
pub mod Visit
pub mod Order
pub mod Total
pub mod Ranked
pub mod Acyclic
use nivasa.Prelude.{
  ltb, leb, ◌==◌, if◌then◌else◌, ==_iff, ==_refl, Bool-cases, Option-cases, is_some, is_none,
  length, is_empty, first, last, get_elem?, any, all, find, keep, replicate, length-append, All,
  All-append, Result, ◌>>=◌, map_err, Result-cases, >>=-eq-ok, ok-injective, ok, err, Text,
  join_with, codes, text_eq, text_eq_iff, text_eq_refl, strip_prefix, ends_with, starts_with,
  upper_char, to_ascii_uppercase, split, join, Lacks, split_whole, split-append, push_head-All,
  split-Lacks, keep-nonempty, is_whitespace, drop_while, drop_end, trim_start_matches,
  trim_end_matches, trim_matches, trim, ends_without, begins_without, drop_while_id, drop_end_id,
  last-drop_end, first-drop_while, last-append, trim_id, Below, insert_by, sort_by, IsSortedBy,
  insert_by-perm, sort_by-perm, IsPreorder, sort_by-IsSortedBy, mem, insert_set, remove_set,
  remove_set_fresh, remove_set_head, lookup, insert_map, keys, mem-keys, lookup-insert_map,
  count_outside, pop, pop-snoc, count_outside-le, count_outside-lt, Run, and_run, done, fail,
  and_run-eq-done, ℕ, zero, suc, ◌+◌, ◌-◌, ◌*◌, ◌≤◌, ◌<◌, compare, Ordering, ◌≡◌, refl, sym, ap,
  ◌∙◌, subst, ◌≢◌, ◌↔◌, ◌⊎◌, inl, inr, Bool, true, false, ◌&&◌, ◌||◌, not, Option, none, some, List,
  [], ◌∷◌, ◌++◌, map, arith,
}

pub data DiError : Type 0 where
  circular_dependency : (cycle : Text) → DiError

pub record Node : Type 0 where
  pub type_name : Text
  pub dependencies : List ℕ

abbrev pub DependencyGraph : Type 0
DependencyGraph = List (ℕ × Node)

abbrev pub new : DependencyGraph
new = []

unfoldable pub add_node : DependencyGraph → ℕ → Text → List ℕ → DependencyGraph
add_node self type_id type_name dependencies =
    insert_map type_id (record { type_name = type_name; dependencies = dependencies }) self

-- What `dfs` changes through its references.
pub record Walk : Type 0 where
  pub visited : List ℕ
  pub visiting : List ℕ
  pub order : List ℕ
  pub path : List Text

abbrev pub start : Walk
start = record { visited = []; visiting = []; order = []; path = [] }

-- The loop over the dependencies of a node.
unfoldable pub each_dependency : (ℕ → Walk → Run DiError Walk) → List ℕ → Walk → Run DiError Walk
each_dependency go [] walk = done walk
each_dependency go (dep ∷ deps) walk = and_run (go dep walk) (each_dependency go deps)

abbrev pub enter : ℕ → Node → Walk → Walk
enter current node walk = record walk {
  visiting = insert_set current walk.visiting;
  path = walk.path ++ (node.type_name ∷ []);
}

abbrev pub leave : ℕ → Walk → Walk
leave current walk = record {
  visited = insert_set current walk.visited;
  visiting = remove_set current walk.visiting;
  order = walk.order ++ (current ∷ []);
  path = pop walk.path;
}

-- The branch of `dfs` for a node that is neither open nor completed.
unfoldable pub run_node : (ℕ → Walk → Run DiError Walk) → ℕ → Node → Walk → Run DiError Walk
run_node go current node walk =
    and_run (each_dependency go node.dependencies (enter current node walk))
      λ after. done (leave current after)

-- The body of `dfs` for a registered node.
unfoldable pub visit : (ℕ → Walk → Run DiError Walk) → ℕ → Node → Walk → Run DiError Walk
visit go current node walk =
    let pushed = walk.path ++ (node.type_name ∷ []) in
    if mem current walk.visiting
    then fail (circular_dependency (join_with (codes " -> ") pushed))
    else if mem current walk.visited
    then done (record walk { path = pop pushed })
    else run_node go current node walk

module _ (self : DependencyGraph) where
  unfoldable pub dfs : ℕ → ℕ → Walk → Run DiError Walk
  dfs zero current walk = none
  dfs (suc fuel) current walk = elim (lookup current self) [
    | none ↦ done walk
    | some node ↦ visit (dfs fuel) current node walk
  ]

  -- The loop of `resolve_order`, each root with a path of its own.
  unfoldable pub each_root : ℕ → List ℕ → Walk → Run DiError Walk
  each_root fuel [] walk = done walk
  each_root fuel (id ∷ ids) walk =
      let visited_root = and_run (dfs fuel id (record walk { path = [] })) (each_root fuel ids) in
      if mem id walk.visited then each_root fuel ids walk else visited_root

  unfoldable pub resolve_order : Run DiError (List ℕ)
  resolve_order = and_run (each_root (suc (length self)) (keys self) start) λ walk. done walk.order
