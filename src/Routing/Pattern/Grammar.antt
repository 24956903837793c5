-- ===== src/Routing/Pattern/Grammar.antt =====
-- Which segment lists the parser yields.
use nivasa.Prelude.{
  ==_refl, is_empty, All-append, ok, Text, strip_prefix, ends_with, Lacks, trim_end_matches, ℕ, ◌≡◌,
  refl, ◌∙◌, ◌≢◌, Bool, true, false, not, none, some, List, [], ◌∷◌, ◌++◌, arith,
}
use nivasa.Routing.Path.{slash}
use nivasa.Routing.Path.Segments.{IsSegment}
use nivasa.Routing.Pattern.{
  RoutePatternSegment, literal, parameter, optional_parameter, wildcard, segment_label,
  parse_segment, parse_optional, parse_star,
}

-- A name that can stand behind ":" or "*": not empty, with no slash and no "?" at its end.
abbrev pub IsName : Text → Type 0
IsName name = (name ≢ []) × Lacks slash name × (ends_with b'?' name ≡ false)

-- A segment that is printed and read as itself, `final` saying that it is the last one.
abbrev pub IsReadable : RoutePatternSegment → Bool → Type 0
IsReadable (literal value) final =
    (value ≢ [])
    × Lacks slash value
    × (ends_with b'?' value ≡ false)
    × (strip_prefix b':' value ≡ none)
    × (strip_prefix b'*' value ≡ none)
IsReadable (parameter name) final = IsName name
IsReadable (optional_parameter name) final = IsName name × (final ≡ true)
IsReadable (wildcard none) final = final ≡ true
IsReadable (wildcard (some name)) final = IsName name × (final ≡ true)

-- Optional parameters and wildcards stand last, and every segment is readable.
abbrev pub IsWellFormed : List RoutePatternSegment → Type 0
IsWellFormed [] = Unit
IsWellFormed (segment ∷ segments) = IsReadable segment (is_empty segments) × IsWellFormed segments

ends_with-cons : (c x : ℕ) (s : Text) → s ≢ [] → ends_with c (x ∷ s) ≡ ends_with c s
ends_with-cons c x [] n = absurd (n refl)
ends_with-cons c x (y ∷ s) n = refl

ends_with-snoc : (c : ℕ) (s : Text) → ends_with c (s ++ (c ∷ [])) ≡ true
ends_with-snoc c [] = ==_refl c
ends_with-snoc c (x ∷ []) = ==_refl c
ends_with-snoc c (x ∷ y ∷ s) = ends_with-snoc c (y ∷ s)

trim_end_snoc : (c : ℕ) (s : Text) → ends_with c s ≡ false → trim_end_matches c (s ++ (c ∷ [])) ≡ s
trim_end_snoc c [] h = rw (==_refl c) refl
trim_end_snoc c (x ∷ []) h = rw (==_refl c) (rw h refl)
trim_end_snoc c (x ∷ y ∷ s) h = rw (trim_end_snoc c (y ∷ s) h) refl

is_empty_of_ne : (s : Text) → s ≢ [] → is_empty s ≡ false
is_empty_of_ne [] n = absurd (n refl)
is_empty_of_ne (x ∷ s) n = refl

append_ne : (s : Text) (c : ℕ) → s ++ (c ∷ []) ≢ []
append_ne [] c e = cc
append_ne (x ∷ s) c e = cc

trim_cons :
    (c x : ℕ) (s : Text)
    → s ≢ []
    → ends_with c s ≡ false
    → trim_end_matches c (x ∷ (s ++ (c ∷ []))) ≡ x ∷ s
trim_cons c x s n h = trim_end_snoc c (x ∷ s) (ends_with-cons c x s n ∙ h)

Lacks-snoc : (s : Text) (c : ℕ) → Lacks slash s → c ≢ slash → Lacks slash (s ++ (c ∷ []))
Lacks-snoc s c h n = All-append _ s (c ∷ []) h (n, tt)

-- What is printed for a readable segment is a segment of a path.
pub segment_label-IsSegment :
    (segment : RoutePatternSegment) (final : Bool)
    → IsReadable segment final
    → IsSegment (segment_label segment)
unfolding segment_label
segment_label-IsSegment (literal value) final (n, l, _, _, _) = (n, l)
segment_label-IsSegment (parameter name) final (n, l, _) = ((λ e. cc), (omega arith, l))
segment_label-IsSegment (optional_parameter name) final ((n, l, _), _) =
    ((λ e. cc), (omega arith, Lacks-snoc name b'?' l (omega arith)))
segment_label-IsSegment (wildcard none) final h = ((λ e. cc), (omega arith, tt))
segment_label-IsSegment (wildcard (some name)) final ((n, l, _), _) = ((λ e. cc), (omega arith, l))

-- What is printed for a readable segment is read as that segment.
pub parse_segment-segment_label :
    (path : Text) (segment : RoutePatternSegment) (final : Bool)
    → IsReadable segment final
    → parse_segment path (segment_label segment) (not final) ≡ ok segment
unfolding parse_segment segment_label
parse_segment-segment_label path (literal value) final (n, l, q, c, s) =
    rw q (rw c (rw (s, parse_star) refl))
parse_segment-segment_label path (parameter name) final (n, l, q) =
    rw (ends_with-cons b'?' b':' name n) (rw q (rw (is_empty_of_ne name n) refl))
parse_segment-segment_label path (optional_parameter name) final ((n, l, q), e) =
    rw (ends_with-cons b'?' b':' (name ++ (b'?' ∷ [])) (λ f. append_ne name b'?' f)) (
      rw (ends_with-snoc b'?' name) (
        rw (e, parse_optional)
          (rw (trim_cons b'?' b':' name n q) (rw (is_empty_of_ne name n) refl))))
parse_segment-segment_label path (wildcard none) final h = rw (h, parse_star) refl
parse_segment-segment_label path (wildcard (some name)) final ((n, l, q), e) =
    rw (ends_with-cons b'?' b'*' name n)
      (rw q (rw (e, parse_star) (rw (is_empty_of_ne name n) refl)))
