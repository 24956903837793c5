-- ===== src/Routing/Index.antt =====
-- `RouteFirstSegmentIndex` and `merge_sorted_indices` of nivasa-routing/src/lib.rs. The hash map
-- `anchored` is an association list with one entry for a key.
pub mod Scan
pub mod Candidates
use nivasa.Prelude.{
  leb, if◌then◌else◌, is_empty, Text, text_eq, ℕ, suc, true, false, Option, none, some, List, [],
  ◌∷◌, ◌++◌,
}
use nivasa.Routing.Path.{first_path_segment}
use nivasa.Routing.Pattern.{RoutePatternSegment, literal, RoutePattern, static, pattern}

pub record RouteFirstSegmentIndex : Type 0 where
  pub anchored : List (Text × List ℕ)
  pub fallback : List ℕ

abbrev pub empty_index : RouteFirstSegmentIndex
empty_index = record { anchored = []; fallback = [] }

abbrev pub segment_value : RoutePatternSegment → Option Text
segment_value (literal value) = some value
segment_value _ = none

unfoldable pub route_pattern_first_segment : RoutePattern → Option Text
route_pattern_first_segment (static []) = none
route_pattern_first_segment (static (segment ∷ segments)) = some segment
route_pattern_first_segment (pattern []) = none
route_pattern_first_segment (pattern (segment ∷ segments)) = segment_value segment

-- `anchored.get(segment)`.
unfoldable pub get_indices : Text → List (Text × List ℕ) → Option (List ℕ)
get_indices segment [] = none
get_indices segment ((key, indices) ∷ rest) =
    if text_eq key segment then some indices else get_indices segment rest

-- `anchored.entry(segment).or_insert_with(Vec::new).push(index)`.
unfoldable pub push_index : Text → ℕ → List (Text × List ℕ) → List (Text × List ℕ)
push_index segment index [] = (segment, index ∷ []) ∷ []
push_index segment index ((key, indices) ∷ rest) =
    if text_eq key segment
    then (key, indices ++ (index ∷ [])) ∷ rest
    else (key, indices) ∷ push_index segment index rest

-- One round of the loop of `rebuild`.
unfoldable pub add_route : Option Text → ℕ → RouteFirstSegmentIndex → RouteFirstSegmentIndex
add_route (some segment) index built = record built {
  anchored = push_index segment index built.anchored;
}
add_route none index built = record built { fallback = built.fallback ++ (index ∷ []) }

module _ {ℓ} {A : Type ℓ} (first_segment : A → Option Text) where
  unfoldable pub rebuild_from : ℕ → List A → RouteFirstSegmentIndex → RouteFirstSegmentIndex
  rebuild_from index [] built = built
  rebuild_from index (route ∷ routes) built =
      rebuild_from (suc index) routes (add_route (first_segment route) index built)

  unfoldable pub rebuild : List A → RouteFirstSegmentIndex
  rebuild routes = rebuild_from 0 routes empty_index

unfoldable pub merge_sorted_indices : List ℕ → List ℕ → List ℕ
merge_sorted_indices [] right = right
merge_sorted_indices (l ∷ left) [] = l ∷ left
merge_sorted_indices (l ∷ left) (r ∷ right) = elim (leb l r) [
  | true ↦ l ∷ merge_sorted_indices left (r ∷ right)
  | false ↦ r ∷ merge_sorted_indices (l ∷ left) right
]

abbrev pub indices_with_fallback : Option (List ℕ) → List ℕ → List ℕ
indices_with_fallback none fallback = fallback
indices_with_fallback (some anchored) fallback =
    if is_empty fallback then anchored else merge_sorted_indices anchored fallback

unfoldable pub candidate_indices : RouteFirstSegmentIndex → Text → List ℕ
candidate_indices index path = elim (first_path_segment path) [
  | none ↦ index.fallback
  | some segment ↦ indices_with_fallback (get_indices segment index.anchored) index.fallback
]
