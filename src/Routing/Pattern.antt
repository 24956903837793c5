-- ===== src/Routing/Pattern.antt =====
-- `RoutePattern`, `RoutePatternSegment`, the parser and the printer of nivasa-routing/src/lib.rs.
-- The loop of `parse_segments` goes over the segments that are left: `index != segments.len() - 1`
-- says that some are. The flag `saw_wildcard` is an argument.
pub mod Order
pub mod Grammar
pub mod Parsed
pub mod RoundTrip
use nivasa.Prelude.{
  ℕ, Text, List, [], ◌∷◌, ◌++◌, map, Bool, true, false, not, Option, none, some, Result, ok, err,
  ◌>>=◌, if◌then◌else◌, is_empty, all, find, length, replicate, strip_prefix, ends_with,
  trim_end_matches, Ordering, compare,
}
use nivasa.Routing.Path.{normalize_path, split_path_segments, join_segments}

pub data RoutePatternSegment : Type 0 where
  literal : Text → RoutePatternSegment
  parameter : (name : Text) → RoutePatternSegment
  optional_parameter : (name : Text) → RoutePatternSegment
  wildcard : (name : Option Text) → RoutePatternSegment

pub data RoutePattern : Type 0 where
  static : List Text → RoutePattern
  pattern : List RoutePatternSegment → RoutePattern

pub data RouteRegistryError : Type 0 where
  duplicate_route : (path : Text) → RouteRegistryError
  unsupported_pattern_segment : (path segment : Text) → RouteRegistryError

unfoldable pub unsupported_segment : Text → Text → RouteRegistryError
unsupported_segment path segment = unsupported_pattern_segment path segment

unfoldable pub segment_label : RoutePatternSegment → Text
segment_label (literal value) = value
segment_label (parameter name) = b':' ∷ name
segment_label (optional_parameter name) = (b':' ∷ name) ++ (b'?' ∷ [])
segment_label (wildcard none) = b'*' ∷ []
segment_label (wildcard (some name)) = b'*' ∷ name

-- What one round of the loop pushes, for a segment with `more` segments behind it or not.
abbrev pub parse_optional : Text → Text → Bool → Result RouteRegistryError RoutePatternSegment
parse_optional path segment more =
    if more
    then err (unsupported_segment path segment)
    else elim (strip_prefix b':' (trim_end_matches b'?' segment)) [
      | none ↦ err (unsupported_segment path segment)
      | some name ↦
          if is_empty name
          then err (unsupported_segment path segment)
          else ok (optional_parameter name)
    ]

abbrev pub parse_star : Text → Text → Bool → Result RouteRegistryError RoutePatternSegment
parse_star path segment more = elim (strip_prefix b'*' segment) [
  | none ↦ ok (literal segment)
  | some name ↦
      if more
      then err (unsupported_segment path segment)
      else ok (wildcard (if is_empty name then none else some name))
]

unfoldable pub parse_segment : Text → Text → Bool → Result RouteRegistryError RoutePatternSegment
parse_segment path segment more =
    if ends_with b'?' segment
    then parse_optional path segment more
    else elim (strip_prefix b':' segment) [
      | some name ↦
          if is_empty name then err (unsupported_segment path segment) else ok (parameter name)
      | none ↦ parse_star path segment more
    ]

abbrev pub is_wildcard : RoutePatternSegment → Bool
is_wildcard (wildcard name) = true
is_wildcard _ = false

abbrev pub is_literal : RoutePatternSegment → Bool
is_literal (literal value) = true
is_literal _ = false

unfoldable pub parse_segments_from :
    Text → Bool → List Text → Result RouteRegistryError (List RoutePatternSegment)
parse_segments_from path saw_wildcard [] = ok []
parse_segments_from path saw_wildcard (segment ∷ segments) =
    let rounds = do
      parsed ← parse_segment path segment (not (is_empty segments))
      rest ← parse_segments_from path (is_wildcard parsed) segments
      ok (parsed ∷ rest)
    in if saw_wildcard then err (unsupported_segment path segment) else rounds

unfoldable pub parse_segments : Text → Result RouteRegistryError (List RoutePatternSegment)
parse_segments path = parse_segments_from path false (split_path_segments path)

-- The text of a literal; the sources call it where every segment is a literal.
abbrev pub literal_text : RoutePatternSegment → Text
literal_text (literal value) = value
literal_text _ = []

unfoldable pub static_path : Text → Result RouteRegistryError RoutePattern
static_path path = do
  let normalized = normalize_path path
  segments ← parse_segments normalized
  elim (find (λ segment. not (is_literal segment)) segments) [
    | some segment ↦ err (unsupported_segment normalized (segment_label segment))
    | none ↦ ok (static (map literal_text segments))
  ]

unfoldable pub parse : Text → Result RouteRegistryError RoutePattern
parse path = do
  let normalized = normalize_path path
  segments ← parse_segments normalized
  if all is_literal segments then ok (static (map literal_text segments)) else ok (pattern segments)

-- `RoutePattern::path`.
unfoldable pub pattern_path : RoutePattern → Text
pattern_path (static segments) = join_segments segments
pattern_path (pattern segments) = join_segments (map segment_label segments)

-- `RouteSegmentKind::rank`, of the kind of a segment.
unfoldable pub rank : RoutePatternSegment → ℕ
rank (literal value) = 3
rank (parameter name) = 2
rank (optional_parameter name) = 1
rank (wildcard name) = 0

unfoldable pub specificity : RoutePattern → List ℕ
specificity (static segments) = replicate (length segments) 3
specificity (pattern segments) = map rank segments

-- The zip loop of `cmp_specificity`: the first difference decides, higher ranks first.
abbrev pub cmp_ranks : List ℕ → List ℕ → Ordering
cmp_ranks (lhs ∷ ls) (rhs ∷ rs) = elim (compare rhs lhs) [
  | Ordering.eq ↦ cmp_ranks ls rs
  | Ordering.lt ↦ Ordering.lt
  | Ordering.gt ↦ Ordering.gt
]
cmp_ranks ls rs = compare (length ls) (length rs)

unfoldable pub cmp_specificity : RoutePattern → RoutePattern → Ordering
cmp_specificity self other = cmp_ranks (specificity self) (specificity other)
