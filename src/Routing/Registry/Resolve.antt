-- ===== src/Routing/Registry/Resolve.antt =====
-- The indexed lookup of `RouteRegistry` against a scan of the table.
use nivasa.Prelude.{
  first, find, Text, text_eq_iff, is_whitespace, ends_without, ◌+◌, ◌≡◌, refl, ◌∙◌, true, false,
  none, some, List, [], ◌∷◌, arith,
}
use nivasa.Routing.Path.{normalize_path, first_path_segment}
use nivasa.Routing.Path.Normal.{first_path_segment-normalize_path}
use nivasa.Routing.Pattern.{
  literal, parameter, optional_parameter, wildcard, RoutePattern, static, pattern,
}
use nivasa.Routing.Capture.{
  matches_pattern_from, capture_pattern, captures_segments, captures, matches,
}
use nivasa.Routing.Version.{find_map}
use nivasa.Routing.Index.{route_pattern_first_segment}
use nivasa.Routing.Index.Candidates.{is_candidate, candidate_indices-rebuild}
use nivasa.Routing.Index.Scan.{find_map-indices_of}
use nivasa.Routing.Registry.{
  RouteEntry, RouteRegistry, entry_first_segment, matching, resolve_entry,
}
use nivasa.Routing.Registry.Invariant.{IsValid}

-- A route that starts with a literal matches only candidates that start with it.
pub captures_segments-is_candidate :
    (route : RoutePattern) (candidate : List Text)
    → is_candidate (first candidate) (route_pattern_first_segment route) ≡ false
    → captures_segments route candidate ≡ none
unfolding captures_segments route_pattern_first_segment capture_pattern matches_pattern_from
captures_segments-is_candidate (static []) candidate h = cc
captures_segments-is_candidate (static (s ∷ segments)) [] h = refl
captures_segments-is_candidate (static (s ∷ segments)) (c ∷ candidate) h = rw h refl
captures_segments-is_candidate (pattern []) candidate h = cc
captures_segments-is_candidate (pattern (literal s ∷ segments)) [] h = refl
captures_segments-is_candidate (pattern (literal s ∷ segments)) (c ∷ candidate) h =
    ground (arith, text_eq_iff c s, text_eq_iff s c)
captures_segments-is_candidate (pattern (parameter name ∷ segments)) candidate h = cc
captures_segments-is_candidate (pattern (optional_parameter name ∷ segments)) candidate h = cc
captures_segments-is_candidate (pattern (wildcard name ∷ segments)) candidate h = cc

-- The test by which both registries skip a candidate agrees with the index, for a path whose
-- normalized form does not end in white space.
pub matches-is_candidate :
    (route : RoutePattern) (path : Text)
    → ends_without is_whitespace (normalize_path path) ≡ true
    → is_candidate (first_path_segment (normalize_path path)) (route_pattern_first_segment route)
      ≡ false
    → matches route (normalize_path path) ≡ false
unfolding matches captures
matches-is_candidate route path e h =
    let k = rw (first_path_segment-normalize_path path e) at h in
    rw (captures_segments-is_candidate route _ k) refl

module _ {ℓ} {T : Type ℓ} where
  find_map-find :
      (path : Text) (entries : List (RouteEntry T))
      → find_map (λ entry. matching path (some entry)) entries
        ≡ find (λ entry. matches entry.route path) entries
  find_map-find path [] = refl
  find_map-find path (entry ∷ entries) = ground (arith, find_map-find path entries)

  -- In a valid registry, the indexed lookup finds the first route of the table that matches the
  -- path, for a path whose normalized form does not end in white space.
  pub resolve_entry-eq-find :
      (self : RouteRegistry T) (path : Text)
      → IsValid self
      → ends_without is_whitespace (normalize_path path) ≡ true
      → resolve_entry self path
        ≡ find (λ entry. matches entry.route (normalize_path path)) self.routes
  unfolding resolve_entry
  resolve_entry-eq-find self path valid clean =
      rw
        (
          valid.indexed,
          candidate_indices-rebuild entry_first_segment self.routes (normalize_path path),
        )
        (find_map-indices_of _ (λ entry. matching (normalize_path path) (some entry)) _ 0
            self.routes (λ k x e. let f : k + 0 ≡ k = omega arith in rw (f, e))
            (λ x h. rw (matches-is_candidate x.route path clean h) refl)
          ∙ find_map-find (normalize_path path) self.routes)
