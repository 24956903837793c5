-- ===== src/Routing/Dispatch.antt =====
-- `RouteDispatchRegistry` of nivasa-routing/src/lib.rs: registration. A method that changes the
-- registry returns the new one; on an error the source has changed nothing. `impl Into<RouteMethod>`
-- is the parsed method.
pub mod Selection
pub mod Methods
pub mod Outcome
pub mod Matching
pub mod Access
pub mod Select
pub mod Invariant
use nivasa.Prelude.{
  and_then, ltb, leb, ◌==◌, if◌then◌else◌, ==_iff, ==_refl, Bool-cases, Option-cases, is_some,
  is_none, length, is_empty, first, last, get_elem?, any, all, find, keep, replicate, length-append,
  All, All-append, Result, ◌>>=◌, map_err, Result-cases, ok, err, Text, codes, text_eq, text_eq_iff,
  text_eq_refl, strip_prefix, ends_with, starts_with, upper_char, to_ascii_uppercase, split, join,
  Lacks, split_whole, split-append, push_head-All, split-Lacks, keep-nonempty, is_whitespace,
  drop_while, drop_end, trim_start_matches, trim_end_matches, trim_matches, trim, insert_by,
  sort_by, ℕ, zero, suc, ◌+◌, ◌-◌, ◌*◌, ◌≤◌, ◌<◌, compare, Ordering, ◌≡◌, refl, sym, ap, ◌∙◌, subst,
  ◌≢◌, ◌↔◌, ◌⊎◌, inl, inr, Bool, true, false, ◌&&◌, ◌||◌, not, Option, none, some, List, [], ◌∷◌,
  ◌++◌, map, arith,
}
use nivasa.Routing.Path.{normalize_version_token, merge_route_paths}
use nivasa.Routing.Pattern.{
  RoutePattern, RouteRegistryError, duplicate_route, unsupported_pattern_segment, static_path,
  parse, pattern_path, cmp_specificity,
}
use nivasa.Routing.Method.{RouteMethod, get_method, as_str, method_eq}
use nivasa.Routing.Controller.{ControllerMetadata, versioned_route_path}
use nivasa.Routing.Index.{
  RouteFirstSegmentIndex, empty_index, rebuild, route_pattern_first_segment, candidate_indices,
}

pub record RouteDispatchEntry {ℓ} (T : Type ℓ) : Type ℓ where
  pub method : RouteMethod
  pub route : RoutePattern
  pub version : Option Text
  pub value : T

pub record RouteDispatchRegistry {ℓ} (T : Type ℓ) : Type ℓ where
  pub routes : List (RouteDispatchEntry T)
  pub first_segment_index : RouteFirstSegmentIndex

pub data RouteDispatchError : Type 0 where
  duplicate_dispatch_route : (method path : Text) → RouteDispatchError
  unsupported_dispatch_segment : (path segment : Text) → RouteDispatchError

-- The closure that `register_static` and the others hand to `map_err`.
unfoldable pub to_dispatch_error : RouteRegistryError → RouteDispatchError
to_dispatch_error (unsupported_pattern_segment path segment) =
    unsupported_dispatch_segment path segment
to_dispatch_error (duplicate_route path) = duplicate_dispatch_route (as_str get_method) path

abbrev pub option_text_eq : Option Text → Option Text → Bool
option_text_eq none none = true
option_text_eq (some a) (some b) = text_eq a b
option_text_eq _ _ = false

module _ {ℓ} {T : Type ℓ} where
  abbrev pub new : RouteDispatchRegistry T
  new = record { routes = []; first_segment_index = empty_index }

  abbrev pub cmp_entries : RouteDispatchEntry T → RouteDispatchEntry T → Ordering
  cmp_entries left right = cmp_specificity left.route right.route

  abbrev pub entry_first_segment : RouteDispatchEntry T → Option Text
  entry_first_segment entry = route_pattern_first_segment entry.route

  -- The test for a duplicate.
  abbrev pub is_same_route : RouteMethod → Text → Option Text → RouteDispatchEntry T → Bool
  is_same_route method path version entry =
      method_eq entry.method method
      && (text_eq (pattern_path entry.route) path && option_text_eq entry.version version)

  unfoldable pub rebuild_first_segment_index : RouteDispatchRegistry T → RouteDispatchRegistry T
  rebuild_first_segment_index self = record self {
    first_segment_index = rebuild entry_first_segment self.routes;
  }

  unfoldable pub register_versioned :
      RouteDispatchRegistry T
      → RouteMethod
      → RoutePattern
      → Option Text
      → T
      → Result RouteDispatchError (RouteDispatchRegistry T)
  unfolding rebuild_first_segment_index
  register_versioned self method route version value =
      let path = pattern_path route in
      let tag = and_then version normalize_version_token in
      let entry : RouteDispatchEntry T = record {
        method = method;
        route = route;
        version = tag;
        value = value;
      } in
      let pushed = self.routes ++ (entry ∷ []) in
      if any (is_same_route method path tag) self.routes
      then err (duplicate_dispatch_route (as_str method) path)
      else ok (rebuild_first_segment_index (record self { routes = sort_by cmp_entries pushed }))

  unfoldable pub register :
      RouteDispatchRegistry T
      → RouteMethod
      → RoutePattern
      → T
      → Result RouteDispatchError (RouteDispatchRegistry T)
  register self method route value = register_versioned self method route none value

  unfoldable pub register_static :
      RouteDispatchRegistry T
      → RouteMethod
      → Text
      → T
      → Result RouteDispatchError (RouteDispatchRegistry T)
  register_static self method path value = do
    route ← map_err to_dispatch_error (static_path path)
    register self method route value

  unfoldable pub register_pattern :
      RouteDispatchRegistry T
      → RouteMethod
      → Text
      → T
      → Result RouteDispatchError (RouteDispatchRegistry T)
  register_pattern self method path value = do
    route ← map_err to_dispatch_error (parse path)
    register self method route value

  unfoldable pub register_controller_route :
      RouteDispatchRegistry T
      → RouteMethod
      → Text
      → Text
      → T
      → Result RouteDispatchError (RouteDispatchRegistry T)
  register_controller_route self method controller_prefix path value =
      register_pattern self method (merge_route_paths controller_prefix path) value

  unfoldable pub register_versioned_controller_route :
      RouteDispatchRegistry T
      → RouteMethod
      → ControllerMetadata
      → Text
      → T
      → Result RouteDispatchError (RouteDispatchRegistry T)
  register_versioned_controller_route self method metadata path value =
      register_pattern self method (versioned_route_path metadata path) value

  unfoldable pub register_header_versioned_route :
      RouteDispatchRegistry T
      → RouteMethod
      → Text
      → Text
      → T
      → Result RouteDispatchError (RouteDispatchRegistry T)
  register_header_versioned_route self method version path value = do
    route ← map_err to_dispatch_error (parse path)
    register_versioned self method route (normalize_version_token version) value

  -- The source repeats the body of `register_header_versioned_route`.
  unfoldable pub register_media_type_versioned_route :
      RouteDispatchRegistry T
      → RouteMethod
      → Text
      → Text
      → T
      → Result RouteDispatchError (RouteDispatchRegistry T)
  register_media_type_versioned_route self method version path value = do
    route ← map_err to_dispatch_error (parse path)
    register_versioned self method route (normalize_version_token version) value
