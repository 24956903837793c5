-- ===== src/Core/Modules/Imports/Order.antt =====
-- What `ModuleRegistry::resolve_order` returns.
use nivasa.Prelude.{
  ==_refl, is_some, length, All, Text, cmp_text, sort_by, mem, IsDistinct, lookup, keys, mem-keys,
  length-sort_by, All-sort_by, sort_by-map, lookup-sort_by, lookup-map, length-map, ℕ, suc,
  Ordering, ◌≡◌, refl, sym, ap, ◌∙◌, true, Option, none, some, List, [], ◌∷◌, map, arith,
}
use mathlib.Core.Option
use mathlib.Core.Path.{ap₂}
use nivasa.Core.Graph.{DependencyGraph, start, each_root, resolve_order}
use nivasa.Core.Modules.{ModuleEntry, ModuleRegistry}
use nivasa.Core.Modules.Imports.{each_import_root, import_roots, import_resolve_order}
use nivasa.Core.Modules.Imports.Reference.{
  Agrees, Agrees-and_run, node_of, AllRegistered, each_import_root-Agrees,
}

-- A registry as registration makes it: entries stand at their identifiers, each once.
abbrev pub IsRegistry : ModuleRegistry → Type 0
IsRegistry self =
    All (λ (item : ℕ × ModuleEntry). item.1.type_id ≡ item.0) self × IsDistinct (keys self)

abbrev by_name : ℕ × ModuleEntry → ℕ × ModuleEntry → Ordering
by_name left right = cmp_text left.1.type_name right.1.type_name

-- The imports as a dependency graph, its nodes sorted by name.
abbrev pub import_graph : ModuleRegistry → DependencyGraph
import_graph self =
    map (λ (item : ℕ × ModuleEntry). (item.0, node_of item.1)) (sort_by by_name self)

pub lookup-import_graph :
    (self : ModuleRegistry) (id : ℕ)
    → IsRegistry self
    → lookup id (import_graph self) ≡ Option.map node_of (lookup id self)
lookup-import_graph self id (own, distinct) =
    lookup-map node_of id (sort_by by_name self)
    ∙ ap (Option.map node_of) (lookup-sort_by by_name id self distinct)

ids_keys :
    (entries : List (ℕ × ModuleEntry))
    → All (λ (item : ℕ × ModuleEntry). item.1.type_id ≡ item.0) entries
    → map (λ (item : ℕ × ModuleEntry). item.1.type_id) entries ≡ keys entries
ids_keys [] h = refl
ids_keys (item ∷ entries) (e, h) = ap₂ (λ x l. x ∷ l) e (ids_keys entries h)

map-map :
    {A : Type 0} {B : Type 0} {C : Type 0} (f : A → B) (g : B → C) (xs : List A)
    → map g (map f xs) ≡ map (λ x. g (f x)) xs
map-map f g [] = refl
map-map f g (x ∷ xs) = ap (λ l. g (f x) ∷ l) (map-map f g xs)

-- The roots stand as the nodes of the graph do.
pub roots_keys :
    (self : ModuleRegistry) → IsRegistry self → import_roots self ≡ keys (import_graph self)
unfolding import_roots
roots_keys self (own, distinct) =
    ap (map (λ (root : Text × ℕ). root.1)) (sort_by-map _ _ self)
    ∙ map-map _ _ (sort_by by_name self)
    ∙ ids_keys (sort_by by_name self) (All-sort_by _ by_name self own)
    ∙ sym (map-map _ _ (sort_by by_name self))

All-of_mem : {P : ℕ → Type 0} (ids : List ℕ) → ((id : ℕ) → mem id ids ≡ true → P id) → All P ids
All-of_mem [] f = tt
All-of_mem (id ∷ ids) f = (f id (rw (==_refl id) refl), All-of_mem ids (λ i m. f i (ground arith)))

pub is_some-map :
    {A : Type 0} {B : Type 0} (f : A → B) (o : Option A) → is_some (Option.map f o) ≡ is_some o
is_some-map f none = refl
is_some-map f (some a) = refl

pub registered_roots :
    (self : ModuleRegistry)
    → IsRegistry self
    → All (λ id. is_some (lookup id self) ≡ true) (keys (import_graph self))
registered_roots self valid = All-of_mem (keys (import_graph self)) λ id m.
    sym (is_some-map node_of (lookup id self))
    ∙ ap is_some (sym (lookup-import_graph self id valid))
    ∙ sym (mem-keys id (import_graph self))
    ∙ m

graph_length : (self : ModuleRegistry) → length (import_graph self) ≡ length self
graph_length self = length-map _ (sort_by by_name self) ∙ length-sort_by by_name self

-- In a registry as registration makes it, all of whose imports are registered, the walk over the
-- imports gives what the walk of the dependency graph gives on the graph of the imports, sorted by
-- name: the same order, or an error with the same cycle.
pub import_resolve_order-Agrees :
    (self : ModuleRegistry)
    → IsRegistry self
    → AllRegistered self
    → Agrees (import_resolve_order self) (resolve_order (import_graph self))
unfolding import_resolve_order resolve_order
import_resolve_order-Agrees self valid registered = Agrees-and_run _ _ _ _ same_walk (λ walk. refl)
  where
    same_walk : Agrees (each_import_root self (suc (length self)) (import_roots self) start) (
        each_root
          (import_graph self)
          (suc (length (import_graph self)))
          (keys (import_graph self))
          start)
    same_walk = rw (roots_keys self valid) (
        rw (graph_length self) (
          each_import_root-Agrees self (import_graph self) (λ id. lookup-import_graph self id valid)
            registered (suc (length self)) (keys (import_graph self)) start
            (registered_roots self valid)))
