-- ===== src/Routing/Capture.antt =====
-- `RoutePathCaptures` and the matcher of nivasa-routing/src/lib.rs. The indices of
-- `matches_pattern_from` are the suffixes that they cut off; the captures, which the source changes
-- through a reference also on its failing paths, are an argument and a result.
pub mod Relation
use nivasa.Prelude.{
  ℕ, ◌+◌, Text, List, [], ◌∷◌, ◌++◌, Bool, true, false, ◌&&◌, Option, none, some, if◌then◌else◌,
  is_empty, find, is_some, is_none, length, join, text_eq,
}
use nivasa.Routing.Path.{slash, normalize_path, split_path_segments}
use nivasa.Routing.Pattern.{
  RoutePatternSegment, literal, parameter, optional_parameter, wildcard, RoutePattern, static,
  pattern,
}

pub record RoutePathCaptures : Type 0 where
  pub parameters : List (Text × Text)
  pub wildcard_value : Option (Option Text × Text)

abbrev pub no_captures : RoutePathCaptures
no_captures = record { parameters = []; wildcard_value = none }

abbrev pub push_parameter : Text → Text → RoutePathCaptures → RoutePathCaptures
push_parameter name value captures = record captures {
  parameters = captures.parameters ++ ((name, value) ∷ []);
}

abbrev pub set_wildcard : Option Text → Text → RoutePathCaptures → RoutePathCaptures
set_wildcard name value captures = record captures { wildcard_value = some (name, value) }

unfoldable pub captures_is_empty : RoutePathCaptures → Bool
captures_is_empty captures = is_empty captures.parameters && is_none captures.wildcard_value

unfoldable pub captures_len : RoutePathCaptures → ℕ
captures_len captures =
    length captures.parameters + (if is_some captures.wildcard_value then 1 else 0)

abbrev pub get_wildcard : Text → Option (Option Text × Text) → Option Text
get_wildcard name none = none
get_wildcard name (some (none, value)) = if text_eq name (b'*' ∷ []) then some value else none
get_wildcard name (some (some key, value)) = if text_eq key name then some value else none

unfoldable pub get : RoutePathCaptures → Text → Option Text
get captures name = elim (find (λ entry. text_eq entry.0 name) captures.parameters) [
  | some entry ↦ some entry.1
  | none ↦ get_wildcard name captures.wildcard_value
]

abbrev pub wildcard_key : Option Text → Text
wildcard_key none = b'*' ∷ []
wildcard_key (some name) = name

abbrev pub wildcard_items : Option (Option Text × Text) → List (Text × Text)
wildcard_items none = []
wildcard_items (some (name, value)) = (wildcard_key name, value) ∷ []

-- `RoutePathCaptures::iter`.
unfoldable pub captures_iter : RoutePathCaptures → List (Text × Text)
captures_iter captures = captures.parameters ++ wildcard_items captures.wildcard_value

-- `*captures = skipped` on success; on failure `captures` is as it was before the attempt.
abbrev pub or_else : Bool × RoutePathCaptures → Bool × RoutePathCaptures → Bool × RoutePathCaptures
or_else (true, skipped) taken = (true, skipped)
or_else (false, skipped) taken = taken

unfoldable pub matches_pattern_from :
    List RoutePatternSegment → List Text → RoutePathCaptures → Bool × RoutePathCaptures
matches_pattern_from [] candidate captures = (is_empty candidate, captures)
matches_pattern_from (literal expected ∷ segments) [] captures = (false, captures)
matches_pattern_from (literal expected ∷ segments) (actual ∷ candidate) captures =
    let rest = matches_pattern_from segments candidate captures in
    if text_eq actual expected then rest else (false, captures)
matches_pattern_from (parameter name ∷ segments) [] captures = (false, captures)
matches_pattern_from (parameter name ∷ segments) (value ∷ candidate) captures =
    matches_pattern_from segments candidate (push_parameter name value captures)
matches_pattern_from (optional_parameter name ∷ segments) [] captures =
    or_else (matches_pattern_from segments [] captures) (false, captures)
matches_pattern_from (optional_parameter name ∷ segments) (value ∷ candidate) captures =
    let taken = matches_pattern_from segments candidate (push_parameter name value captures) in
    or_else (matches_pattern_from segments (value ∷ candidate) captures) taken
matches_pattern_from (wildcard name ∷ []) candidate captures =
    (true, set_wildcard name (join slash candidate) captures)
matches_pattern_from (wildcard name ∷ segment ∷ segments) candidate captures = (false, captures)

unfoldable pub capture_pattern : List RoutePatternSegment → List Text → Option RoutePathCaptures
capture_pattern segments candidate =
    let (matched, captures) = matches_pattern_from segments candidate no_captures in
    if matched then some captures else none

-- `expected == &candidate_segments`.
abbrev pub texts_eq : List Text → List Text → Bool
texts_eq [] [] = true
texts_eq (a ∷ as') (b ∷ bs) = text_eq a b && texts_eq as' bs
texts_eq _ _ = false

-- `RoutePattern::captures`, on the segments of the normalized path.
unfoldable pub captures_segments : RoutePattern → List Text → Option RoutePathCaptures
captures_segments (static expected) candidate =
    if texts_eq expected candidate then some no_captures else none
captures_segments (pattern expected) candidate = capture_pattern expected candidate

unfoldable pub captures : RoutePattern → Text → Option RoutePathCaptures
captures self path = captures_segments self (split_path_segments (normalize_path path))

unfoldable pub matches : RoutePattern → Text → Bool
matches self path = is_some (captures self path)
