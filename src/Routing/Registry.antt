-- ===== src/Routing/Registry.antt =====
-- `RouteRegistry` of nivasa-routing/src/lib.rs. A method that changes the registry returns the new
-- one; on an error the source has changed nothing.
pub mod Invariant
pub mod Resolve
use nivasa.Prelude.{
  if◌then◌else◌, is_some, get_elem?, any, Result, ◌>>=◌, ok, err, Text, text_eq, sort_by, Ordering,
  Bool, Option, none, some, List, [], ◌∷◌, ◌++◌,
}
use nivasa.Routing.Path.{normalize_path}
use nivasa.Routing.Pattern.{
  RoutePattern, RouteRegistryError, duplicate_route, static_path, parse, pattern_path,
  cmp_specificity,
}
use nivasa.Routing.Capture.{matches}
use nivasa.Routing.Version.{find_map}
use nivasa.Routing.Index.{
  RouteFirstSegmentIndex, empty_index, rebuild, route_pattern_first_segment, candidate_indices,
}

pub record RouteEntry {ℓ} (T : Type ℓ) : Type ℓ where
  pub route : RoutePattern
  pub value : T

pub record RouteRegistry {ℓ} (T : Type ℓ) : Type ℓ where
  pub routes : List (RouteEntry T)
  pub first_segment_index : RouteFirstSegmentIndex

module _ {ℓ} {T : Type ℓ} where
  abbrev pub new : RouteRegistry T
  new = record { routes = []; first_segment_index = empty_index }

  abbrev pub cmp_entries : RouteEntry T → RouteEntry T → Ordering
  cmp_entries left right = cmp_specificity left.route right.route

  abbrev pub entry_first_segment : RouteEntry T → Option Text
  entry_first_segment entry = route_pattern_first_segment entry.route

  abbrev pub has_path : Text → RouteEntry T → Bool
  has_path path entry = text_eq (pattern_path entry.route) path

  unfoldable pub rebuild_first_segment_index : RouteRegistry T → RouteRegistry T
  rebuild_first_segment_index self = record self {
    first_segment_index = rebuild entry_first_segment self.routes;
  }

  unfoldable pub register :
      RouteRegistry T → RoutePattern → T → Result RouteRegistryError (RouteRegistry T)
  unfolding rebuild_first_segment_index
  register self route value =
      let path = pattern_path route in
      let entry : RouteEntry T = record { route = route; value = value } in
      let pushed = self.routes ++ (entry ∷ []) in
      if any (has_path path) self.routes
      then err (duplicate_route path)
      else ok (rebuild_first_segment_index (record self { routes = sort_by cmp_entries pushed }))

  unfoldable pub register_static :
      RouteRegistry T → Text → T → Result RouteRegistryError (RouteRegistry T)
  register_static self path value = do route ← static_path path; register self route value

  unfoldable pub register_pattern :
      RouteRegistry T → Text → T → Result RouteRegistryError (RouteRegistry T)
  register_pattern self path value = do route ← parse path; register self route value

  -- `self.routes.get(index)`, kept if it matches.
  abbrev pub matching : Text → Option (RouteEntry T) → Option (RouteEntry T)
  matching path none = none
  matching path (some entry) = if matches entry.route path then some entry else none

  unfoldable pub resolve_entry : RouteRegistry T → Text → Option (RouteEntry T)
  resolve_entry self path =
      let normalized_path = normalize_path path in
      find_map (λ index. matching normalized_path (get_elem? self.routes index))
        (candidate_indices self.first_segment_index normalized_path)

  abbrev pub entry_value : Option (RouteEntry T) → Option T
  entry_value none = none
  entry_value (some entry) = some entry.value

  unfoldable pub resolve : RouteRegistry T → Text → Option T
  resolve self path =
      let normalized_path = normalize_path path in
      find_map (λ index. entry_value (matching normalized_path (get_elem? self.routes index)))
        (candidate_indices self.first_segment_index normalized_path)

  unfoldable pub contains : RouteRegistry T → Text → Bool
  contains self path = is_some (resolve self path)
