-- ===== src/Examples/Dispatches.antt =====
-- Examples for the modules below Routing.Dispatch.
use nivasa.Prelude.{
  ok, err, codes, is_whitespace, insert_by, sort_by, ℕ, ◌≡◌, refl, ◌≢◌, ◌↔◌, ◌⊎◌, true, none, some,
  [], ◌∷◌, map,
}
use mathlib.Core.List.{Mem, Perm, mem-cons_self}
use nivasa.Routing.Path.{
  normalize_path, split_path_segments, join_segments, normalize_version_token, first_path_segment,
}
use nivasa.Routing.Pattern.{
  literal, parameter, RoutePattern, pattern, pattern_path, cmp_specificity, specificity, rank,
  segment_label,
}
use nivasa.Routing.Capture.{
  RoutePathCaptures, capture_pattern, captures_segments, captures, matches, matches_pattern_from,
}
use nivasa.Routing.Method.{get_method, post, canonical, as_str, method_eq, method_matches}
use nivasa.Routing.Index.{
  rebuild, rebuild_from, add_route, push_index, get_indices, candidate_indices,
  merge_sorted_indices, route_pattern_first_segment,
}
use nivasa.Routing.Dispatch
use nivasa.Routing.Dispatch.{
  RouteDispatchEntry, RouteDispatchRegistry, duplicate_dispatch_route, register_versioned,
}
use nivasa.Routing.Dispatch.Invariant
use nivasa.Routing.Dispatch.Selection.{
  RouteDispatchSelection, matched, method_not_allowed, not_found, place, collect, select_versioned,
  allowed_methods, selected_entry, match_entries, selected_match, dispatch_selection,
  dispatch_versioned, resolve_match_versioned, outcome_entry, dedup,
}
use nivasa.Routing.Dispatch.Select.{Selects, exact, tagged, select_versioned-eq-scan}
use nivasa.Routing.Dispatch.Methods.{IsAscending, allowed_methods_lem}
use nivasa.Routing.Dispatch.Outcome.{dispatch_selection_lem, method_not_allowed_lem}
use nivasa.Routing.Dispatch.Matching.{match_entry, resolve_match_versioned-dispatch_versioned}

dispatches : Unit {0}
unfolding normalize_path split_path_segments join_segments first_path_segment is_whitespace
    normalize_version_token segment_label pattern_path cmp_specificity specificity rank
    capture_pattern captures_segments captures matches matches_pattern_from canonical as_str
    method_eq method_matches rebuild rebuild_from add_route push_index get_indices candidate_indices
    merge_sorted_indices route_pattern_first_segment insert_by sort_by register_versioned
    Dispatch.rebuild_first_segment_index place collect select_versioned allowed_methods
    selected_entry match_entries selected_match dispatch_selection dispatch_versioned
    resolve_match_versioned dedup
dispatches = tt

abbrev user_route : RoutePattern
user_route = pattern (literal (codes "users") ∷ parameter (codes "id") ∷ [])

abbrev get_user : RouteDispatchEntry ℕ
get_user = record { method = get_method; route = user_route; version = none; value = 1 }

abbrev post_user : RouteDispatchEntry ℕ
post_user = record { method = post; route = user_route; version = some (codes "v2"); value = 2 }

abbrev one_entry : RouteDispatchRegistry ℕ
one_entry = record {
  routes = get_user ∷ [];
  first_segment_index = record { anchored = (codes "users", 0 ∷ []) ∷ []; fallback = [] };
}

abbrev two_entries : RouteDispatchRegistry ℕ
two_entries = record {
  routes = get_user ∷ post_user ∷ [];
  first_segment_index = record { anchored = (codes "users", 0 ∷ 1 ∷ []) ∷ []; fallback = [] };
}

one_entry-IsValid : Invariant.IsValid one_entry
unfolding dispatches
one_entry-IsValid =
    Invariant.register_versioned-IsValid Dispatch.new one_entry get_method user_route none 1
      Invariant.new-IsValid refl

two_entries-IsValid : Invariant.IsValid two_entries
unfolding dispatches
two_entries-IsValid =
    Invariant.register_versioned-IsValid one_entry two_entries post user_route (some (codes "2")) 2
      one_entry-IsValid refl

select_versioned-eq-scan_example :
    Selects
      (normalize_path (codes "/users/7"))
      (some (codes "v2"))
      (exact (normalize_path (codes "/users/7")) (some (codes "v2")) two_entries.routes)
      (tagged (normalize_path (codes "/users/7")) none two_entries.routes)
      (select_versioned two_entries (codes "/users/7") (some (codes "V2")))
unfolding dispatches
select_versioned-eq-scan_example =
    select_versioned-eq-scan two_entries (codes "/users/7") (some (codes "V2")) two_entries-IsValid
      refl

register_versioned_lem_example :
    ((next : RouteDispatchRegistry ℕ) × (register_versioned two_entries get_method user_route none 9
        ≡ ok next)
      × Invariant.IsValid next
      × Perm next.routes (Invariant.new_entry get_method user_route none 9 ∷ two_entries.routes)
      × (¬ Mem
          (Invariant.entry_key {T = ℕ} (Invariant.new_entry get_method user_route none 9))
          (map Invariant.entry_key two_entries.routes)))
    ⊎ ((register_versioned two_entries get_method user_route none 9
          ≡ err (duplicate_dispatch_route (as_str get_method) (pattern_path user_route)))
        × Mem
            (Invariant.entry_key {T = ℕ} (Invariant.new_entry get_method user_route none 9))
            (map Invariant.entry_key two_entries.routes))
register_versioned_lem_example =
    Invariant.register_versioned_lem two_entries get_method user_route none 9 two_entries-IsValid

abbrev selection : RouteDispatchSelection ℕ
selection = record {
  path = codes "/users/7";
  requested_version = some (codes "v2");
  exact_version_match = true;
  entries = post_user ∷ [];
}

selection_lem : select_versioned two_entries (codes "/users/7") (some (codes "v2")) ≡ selection
unfolding dispatches
selection_lem = refl

dispatch_selection_lem_example :
    ((entry : RouteDispatchEntry ℕ) × (dispatch_selection selection (codes "GET") ≡ matched entry)
      × Mem entry selection.entries
      × (method_matches entry.method (codes "GET") ≡ true))
    ⊎ (((dispatch_selection selection (codes "GET") ≡ not_found) × (selection.entries ≡ []))
        ⊎ ((dispatch_selection selection (codes "GET")
              ≡ method_not_allowed selection.path (allowed_methods selection))
            × (selection.entries ≢ [])
            × (¬ Mem (codes "GET") (allowed_methods selection))))
dispatch_selection_lem_example = dispatch_selection_lem selection (codes "GET")

method_not_allowed_lem_example : ∥ (
    (entry : RouteDispatchEntry ℕ) × (dispatch_selection selection (codes "POST")
      ≡ matched entry)) ∥₁
unfolding dispatches
method_not_allowed_lem_example =
    method_not_allowed_lem selection (codes "GET") (codes "/users/7") (codes "POST" ∷ [])
      (codes "POST") refl mem-cons_self

allowed_methods_lem_example :
    IsAscending (allowed_methods selection)
    × (Mem (codes "POST") (allowed_methods selection)
        ↔ Mem (codes "POST") (map (λ entry. as_str entry.method) selection.entries))
allowed_methods_lem_example = allowed_methods_lem selection (codes "POST")

resolve_match_versioned-dispatch_versioned_example :
    match_entry (resolve_match_versioned two_entries (codes "get") (codes "/users/7") none)
    ≡ outcome_entry (dispatch_versioned two_entries (codes "get") (codes "/users/7") none)
resolve_match_versioned-dispatch_versioned_example =
    resolve_match_versioned-dispatch_versioned two_entries (codes "get") (codes "/users/7") none

abbrev seven : RoutePathCaptures
seven = record { parameters = (codes "id", codes "7") ∷ []; wildcard_value = none }
