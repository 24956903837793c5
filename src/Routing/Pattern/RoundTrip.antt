-- ===== src/Routing/Pattern/RoundTrip.antt =====
-- Printing a parsed route and parsing it again.
use nivasa.Prelude.{
  if◌then◌else◌, Bool-cases, is_empty, all, All, ok, Text, is_whitespace, ends_without, ◌≡◌, refl,
  ap, ◌⊎◌, inl, inr, true, false, none, some, List, [], ◌∷◌, map,
}
use nivasa.Routing.Path.{normalize_path, join_segments}
use nivasa.Routing.Path.Segments.{IsSegment, split_path_segments-join_segments}
use nivasa.Routing.Path.Joined.{normalize_path-join_segments}
use nivasa.Routing.Pattern.{
  RoutePatternSegment, literal, parameter, optional_parameter, wildcard, RoutePattern, static,
  pattern, segment_label, parse_segments_from, parse_segments, parse, pattern_path, is_wildcard,
  is_literal, literal_text,
}
use nivasa.Routing.Pattern.Grammar.{
  IsReadable, IsWellFormed, segment_label-IsSegment, parse_segment-segment_label,
}

is_empty-map {ℓ κ} :
    {A : Type ℓ} {B : Type κ} (f : A → B) (xs : List A) → is_empty (map f xs) ≡ is_empty xs
is_empty-map f [] = refl
is_empty-map f (x ∷ xs) = refl

-- A wildcard that may stand where it does has nothing behind it.
wildcard_last :
    (segment : RoutePatternSegment) (segments : List RoutePatternSegment)
    → IsReadable segment (is_empty segments)
    → (is_wildcard segment ≡ false) ⊎ (segments ≡ [])
wildcard_last (literal value) segments h = inl refl
wildcard_last (parameter name) segments h = inl refl
wildcard_last (optional_parameter name) segments h = inl refl
wildcard_last (wildcard name) [] h = inr refl
wildcard_last (wildcard none) (s ∷ segments) h = absurd (cc)
wildcard_last (wildcard (some name)) (s ∷ segments) (n, e) = absurd (cc)

parse_segments_from-segment_label :
    (path : Text) (segments : List RoutePatternSegment)
    → IsWellFormed segments
    → parse_segments_from path false (map segment_label segments) ≡ ok segments
unfolding parse_segments_from
parse_segments_from-segment_label path [] h = refl
parse_segments_from-segment_label path (segment ∷ segments) (h, hs) =
    rw (is_empty-map segment_label segments) (
      rw (parse_segment-segment_label path segment (is_empty segments) h)
        (elim (wildcard_last segment segments h) [
          | inl e ↦ rw e (rw (parse_segments_from-segment_label path segments hs) refl)
          | inr e ↦ rw e refl
        ]))

labels-IsSegment :
    (segments : List RoutePatternSegment)
    → IsWellFormed segments
    → All IsSegment (map segment_label segments)
labels-IsSegment [] h = tt
labels-IsSegment (segment ∷ segments) (h, hs) =
    (segment_label-IsSegment segment (is_empty segments) h, labels-IsSegment segments hs)

-- The route that the parser makes of its segments.
abbrev pub route_of : List RoutePatternSegment → RoutePattern
route_of segments =
    if all is_literal segments then static (map literal_text segments) else pattern segments

literal_labels :
    (segments : List RoutePatternSegment)
    → all is_literal segments ≡ true
    → map literal_text segments ≡ map segment_label segments
unfolding segment_label
literal_labels [] h = refl
literal_labels (literal value ∷ segments) h = ap (λ l. value ∷ l) (literal_labels segments h)
literal_labels (parameter name ∷ segments) h = cc
literal_labels (optional_parameter name ∷ segments) h = cc
literal_labels (wildcard name ∷ segments) h = cc

pattern_path-route_of :
    (segments : List RoutePatternSegment)
    → pattern_path (route_of segments) ≡ join_segments (map segment_label segments)
unfolding pattern_path
pattern_path-route_of segments = elim (Bool-cases (all is_literal segments)) [
  | inl e ↦ rw e (ap join_segments (literal_labels segments e))
  | inr e ↦ rw e refl
]

parse_of_segments :
    (path : Text) (segments : List RoutePatternSegment)
    → parse_segments (normalize_path path) ≡ ok segments
    → parse path ≡ ok (route_of segments)
unfolding parse
parse_of_segments path segments e =
    rw e (elim (Bool-cases (all is_literal segments)) [ inl h ↦ rw h refl | inr h ↦ rw h refl ])

-- A route of well-formed segments is read back from its canonical path, unless that path ends in
-- white space.
pub parse-pattern_path_of_IsWellFormed :
    (segments : List RoutePatternSegment)
    → IsWellFormed segments
    → ends_without is_whitespace (pattern_path (route_of segments)) ≡ true
    → parse (pattern_path (route_of segments)) ≡ ok (route_of segments)
unfolding parse_segments
parse-pattern_path_of_IsWellFormed segments h clean =
    parse_of_segments (pattern_path (route_of segments)) segments (
      rw (pattern_path-route_of segments) (
        rw (normalize_path-join_segments labels (labels-IsSegment segments h) clean') (
          rw (split_path_segments-join_segments labels (labels-IsSegment segments h))
            (parse_segments_from-segment_label (join_segments labels) segments h))))
  where
    labels : List Text
    labels = map segment_label segments

    clean' : ends_without is_whitespace (join_segments labels) ≡ true
    clean' = rw (pattern_path-route_of segments) at clean
