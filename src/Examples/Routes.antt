-- ===== src/Examples/Routes.antt =====
-- Examples for the modules below Routing.
use nivasa.Prelude.{
  ◌==◌, is_some, find, Result, ◌>>=◌, ok, err, Text, codes, is_whitespace, ends_without, insert_by,
  sort_by, ℕ, ◌≡◌, refl, ◌↔◌, ◌⊎◌, true, none, some, List, [], ◌∷◌, map, arith,
}
use mathlib.Core.List.{Mem, Perm}
use nivasa.Routing.Path.{
  slash, normalize_path, split_path_segments, join_segments, first_path_segment,
}
use nivasa.Routing.Path.Segments.{split_path_segments-join_segments}
use nivasa.Routing.Path.Normal.{normalize_path_shape}
use nivasa.Routing.Pattern.{
  RoutePatternSegment, literal, parameter, optional_parameter, wildcard, RoutePattern, static,
  pattern, RouteRegistryError, duplicate_route, parse, pattern_path, parse_segments, parse_segment,
  parse_segments_from, unsupported_segment, unsupported_pattern_segment, segment_label,
  cmp_specificity, specificity, rank,
}
use nivasa.Routing.Pattern.Grammar.{IsWellFormed}
use nivasa.Routing.Pattern.RoundTrip.{route_of}
use nivasa.Routing.Pattern.Parsed.{parse-IsWellFormed, parse-pattern_path}
use nivasa.Routing.Capture.{
  RoutePathCaptures, captures_iter, capture_pattern, captures_segments, captures, matches,
  matches_pattern_from, get,
}
use nivasa.Routing.Capture.Relation.{Matches, capture_pattern_sound, capture_pattern_iff}
use nivasa.Routing.Index.{
  rebuild, rebuild_from, add_route, push_index, get_indices, candidate_indices,
  merge_sorted_indices, route_pattern_first_segment,
}
use nivasa.Routing.Index.Candidates.{indices_of, is_candidate, candidate_indices-rebuild}
use nivasa.Routing.Registry
use nivasa.Routing.Registry.{
  RouteEntry, RouteRegistry, register_pattern, resolve_entry, register, entry_first_segment,
}
use nivasa.Routing.Registry.Invariant
use nivasa.Routing.Registry.Resolve.{resolve_entry-eq-find}

routes : Unit {0}
unfolding normalize_path split_path_segments join_segments first_path_segment is_whitespace parse
    parse_segments parse_segments_from parse_segment unsupported_segment segment_label pattern_path
    cmp_specificity specificity rank captures_iter capture_pattern captures_segments captures
    matches matches_pattern_from get rebuild rebuild_from add_route push_index get_indices
    candidate_indices merge_sorted_indices route_pattern_first_segment insert_by sort_by
    Registry.register Registry.register_pattern Registry.resolve_entry
    Registry.rebuild_first_segment_index
routes = tt

-- The normal form of a path of two slashes is empty, and that of "/ab/ " keeps no slash.
normalize_two_slashes : normalize_path (codes "//") ≡ []
unfolding routes
normalize_two_slashes = refl

normalize_padded : normalize_path (codes " ab// ") ≡ codes "/ab"
unfolding routes
normalize_padded = refl

users : List RoutePatternSegment
users = literal (codes "users") ∷ parameter (codes "id") ∷ optional_parameter (codes "tab") ∷ []

parse-users : parse (codes "users/:id/:tab?/") ≡ ok (pattern users)
unfolding routes users
parse-users = refl

parse_misplaced :
    parse (codes "/*all/x") ≡ err (unsupported_pattern_segment (codes "/*all/x") (codes "*all"))
unfolding routes
parse_misplaced = refl

abbrev found : RoutePathCaptures
found = record { parameters = (codes "id", codes "42") ∷ []; wildcard_value = none }

abbrev candidate : List Text
candidate = codes "users" ∷ codes "42" ∷ []

captured : capture_pattern users candidate ≡ some found
unfolding routes users
captured = refl

capture_pattern_sound_example : Matches users candidate (captures_iter found)
capture_pattern_sound_example = capture_pattern_sound users candidate found captured

capture_pattern_iff_example :
    (is_some (capture_pattern users candidate) ≡ true)
    ↔ ∥ ((bound : List (Text × Text)) × Matches users candidate bound) ∥₁
capture_pattern_iff_example = capture_pattern_iff users candidate

parse-pattern_path_example : parse (pattern_path (pattern users)) ≡ ok (pattern users)
unfolding routes users
parse-pattern_path_example =
    parse-pattern_path (codes "users/:id/:tab?/") (pattern users) parse-users refl

parse-IsWellFormed_example :
    (segments : List RoutePatternSegment) × IsWellFormed segments
    × (pattern users ≡ route_of segments)
parse-IsWellFormed_example = parse-IsWellFormed (codes "users/:id/:tab?/") parse-users

split_path_segments-join_segments_example :
    split_path_segments (join_segments candidate) ≡ candidate
split_path_segments-join_segments_example =
    split_path_segments-join_segments candidate
      (((λ e. cc), omega arith), (((λ e. cc), omega arith), tt))

normalize_path_shape_example :
    (normalize_path (codes "a/b/") ≡ slash ∷ [])
    ⊎ ((ends_without (λ c. c == slash) (normalize_path (codes "a/b/")) ≡ true)
        × ((normalize_path (codes "a/b/") ≡ [])
            ⊎ ((s : Text) × (normalize_path (codes "a/b/") ≡ slash ∷ s))))
normalize_path_shape_example = normalize_path_shape (codes "a/b/")

-- A registry of three routes, registered out of their order.
abbrev table : Result RouteRegistryError (RouteRegistry ℕ)
table = do
  one ← register_pattern Registry.new (codes "/*rest") 1
  two ← register_pattern one (codes "/users/:id") 2
  register_pattern two (codes "/users/me") 3

abbrev entry : RoutePattern → ℕ → RouteEntry ℕ
entry route value = record { route = route; value = value }

abbrev rest_route : RoutePattern
rest_route = pattern (wildcard (some (codes "rest")) ∷ [])

abbrev id_route : RoutePattern
id_route = pattern (literal (codes "users") ∷ parameter (codes "id") ∷ [])

abbrev me_route : RoutePattern
me_route = static (codes "users" ∷ codes "me" ∷ [])

abbrev sample : RouteRegistry ℕ
sample = record {
  routes = entry me_route 3 ∷ entry id_route 2 ∷ entry rest_route 1 ∷ [];
  first_segment_index = record { anchored = (codes "users", 0 ∷ 1 ∷ []) ∷ []; fallback = 2 ∷ [] };
}

table_lem : table ≡ ok sample
unfolding routes
table_lem = refl

resolve_me : resolve_entry sample (codes "/users/me/") ≡ some (entry me_route 3)
unfolding routes
resolve_me = refl

abbrev one_route : RouteRegistry ℕ
one_route = record {
  routes = entry rest_route 1 ∷ [];
  first_segment_index = record { anchored = []; fallback = 0 ∷ [] };
}

abbrev two_routes : RouteRegistry ℕ
two_routes = record {
  routes = entry id_route 2 ∷ entry rest_route 1 ∷ [];
  first_segment_index = record { anchored = (codes "users", 0 ∷ []) ∷ []; fallback = 1 ∷ [] };
}

one_route-IsValid : Invariant.IsValid one_route
unfolding routes
one_route-IsValid =
    Invariant.register-IsValid Registry.new one_route rest_route 1 Invariant.new-IsValid refl

two_routes-IsValid : Invariant.IsValid two_routes
unfolding routes
two_routes-IsValid =
    Invariant.register-IsValid one_route two_routes id_route 2 one_route-IsValid refl

sample-IsValid : Invariant.IsValid sample
unfolding routes
sample-IsValid = Invariant.register-IsValid two_routes sample me_route 3 two_routes-IsValid refl

resolve_entry-eq-find_example :
    resolve_entry sample (codes "/users/7")
    ≡ find (λ entry. matches entry.route (normalize_path (codes "/users/7"))) sample.routes
unfolding routes
resolve_entry-eq-find_example = resolve_entry-eq-find sample (codes "/users/7") sample-IsValid refl

register_lem_example :
    ((next : RouteRegistry ℕ) × (register sample (static []) 4 ≡ ok next)
      × Invariant.IsValid next
      × Perm next.routes (entry (static []) 4 ∷ sample.routes)
      × (¬ Mem (pattern_path (static [])) (map Invariant.entry_path sample.routes)))
    ⊎ ((register sample (static []) 4 ≡ err (duplicate_route (pattern_path (static []))))
        × Mem (pattern_path (static [])) (map Invariant.entry_path sample.routes))
register_lem_example = Invariant.register_lem sample (static []) 4 sample-IsValid

candidate_indices-rebuild_example :
    candidate_indices (rebuild entry_first_segment sample.routes) (codes "/users/7")
    ≡ indices_of
        (λ route. is_candidate (first_path_segment (codes "/users/7")) (entry_first_segment route))
        0
        sample.routes
candidate_indices-rebuild_example =
    candidate_indices-rebuild entry_first_segment sample.routes (codes "/users/7")
