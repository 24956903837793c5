-- ===== src/Routing/Dispatch/Access.antt =====
-- The look-ups of `RouteDispatchRegistry` that take the version from a header or from a media type,
-- and the accessors of the registry, its selections, entries and errors (nivasa-routing/src/lib.rs).
use nivasa.Prelude.{
  and_then, if◌then◌else◌, Option-cases, length, is_empty, find, Text, codes, ℕ, ◌≡◌, refl, sym,
  inl, inr, Bool, true, false, Option, none, some, ◌++◌,
}
use nivasa.Routing.Pattern.{RouteRegistryError, duplicate_route, unsupported_pattern_segment}
use nivasa.Routing.Version.{parse_api_version_header, parse_api_version_accept}
use nivasa.Routing.Method.{method_matches}
use nivasa.Routing.Capture.{RoutePathCaptures, captures}
use nivasa.Routing.Dispatch.{
  RouteDispatchEntry, RouteDispatchRegistry, RouteDispatchError, duplicate_dispatch_route,
  unsupported_dispatch_segment,
}
use nivasa.Routing.Dispatch.Selection.{
  RouteDispatchSelection, RouteDispatchMatch, resolve_versioned, resolve_match_versioned,
  outcome_value, dispatch_selection, selected_entry, not_found, method_not_allowed, allowed_methods,
}

abbrev tick : Text
tick = codes "`"

-- `Display` of the two error types.
unfoldable pub registry_error_text : RouteRegistryError → Text
registry_error_text (duplicate_route path) = codes "duplicate route `" ++ (path ++ tick)
registry_error_text (unsupported_pattern_segment path segment) =
    codes "unsupported route segment `" ++ (segment ++ (codes "` in `" ++ (path ++ tick)))

unfoldable pub dispatch_error_text : RouteDispatchError → Text
dispatch_error_text (duplicate_dispatch_route method path) =
    codes "duplicate route `" ++ (method ++ (codes " " ++ (path ++ tick)))
dispatch_error_text (unsupported_dispatch_segment path segment) =
    codes "unsupported route segment `" ++ (segment ++ (codes "` in `" ++ (path ++ tick)))

-- `RoutePathCaptures::wildcard` and `wildcard_name`.
unfoldable pub wildcard_text : RoutePathCaptures → Option Text
wildcard_text self = and_then self.wildcard_value λ found. some found.1

unfoldable pub wildcard_name : RoutePathCaptures → Option Text
wildcard_name self = and_then self.wildcard_value λ found. found.0

module _ {ℓ} {T : Type ℓ} where
  unfoldable pub registry_len : RouteDispatchRegistry T → ℕ
  registry_len self = length self.routes

  unfoldable pub registry_is_empty : RouteDispatchRegistry T → Bool
  registry_is_empty self = is_empty self.routes

  unfoldable pub selection_len : RouteDispatchSelection T → ℕ
  selection_len self = length self.entries

  unfoldable pub selection_is_empty : RouteDispatchSelection T → Bool
  selection_is_empty self = is_empty self.entries

  -- `RouteDispatchSelection::resolve`.
  unfoldable pub selected_value : RouteDispatchSelection T → Text → Option T
  selected_value self method =
      and_then (find (λ entry. method_matches entry.method method) self.entries)
        λ entry. some entry.value

  -- `RouteDispatchEntry::captures`.
  unfoldable pub entry_captures : RouteDispatchEntry T → Text → Option RoutePathCaptures
  entry_captures self path = captures self.route path

  unfoldable pub resolve_header_versioned :
      RouteDispatchRegistry T → Text → Text → Option Text → Option T
  resolve_header_versioned self method path header_value =
      resolve_versioned self method path (and_then header_value parse_api_version_header)

  unfoldable pub resolve_media_type_versioned :
      RouteDispatchRegistry T → Text → Text → Option Text → Option T
  resolve_media_type_versioned self method path accept_value =
      resolve_versioned self method path (and_then accept_value parse_api_version_accept)

  unfoldable pub resolve_header_match :
      RouteDispatchRegistry T → Text → Text → Option Text → Option (RouteDispatchMatch T)
  resolve_header_match self method path header_value =
      resolve_match_versioned self method path (and_then header_value parse_api_version_header)

  unfoldable pub resolve_media_type_match :
      RouteDispatchRegistry T → Text → Text → Option Text → Option (RouteDispatchMatch T)
  resolve_media_type_match self method path accept_value =
      resolve_match_versioned self method path (and_then accept_value parse_api_version_accept)

  -- A selection resolves a method to the value of the entry that its dispatch matches, and to
  -- nothing when the dispatch gives no match.
  pub selected_value-dispatch :
      (self : RouteDispatchSelection T) (method : Text)
      → selected_value self method ≡ outcome_value (dispatch_selection self method)
  unfolding selected_value dispatch_selection selected_entry
  selected_value-dispatch self method =
      elim (Option-cases (find (λ entry. method_matches entry.method method) self.entries)) [
        | inl missing ↦ rw (missing, dispatch_selection) (sym (no_value (is_empty self.entries)))
        | inr (entry, found) ↦ rw (found, dispatch_selection) refl
      ]
    where
      no_value :
          (bare : Bool)
          → outcome_value {T = T}
              (if bare then not_found else method_not_allowed self.path (allowed_methods self))
            ≡ none
      no_value true = refl
      no_value false = refl
