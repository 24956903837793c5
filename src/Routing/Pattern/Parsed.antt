-- ===== src/Routing/Pattern/Parsed.antt =====
-- Every segment list that the parser yields is well formed.
use nivasa.Prelude.{
  ◌==◌, if◌then◌else◌, ==_iff, Bool-cases, Option-cases, is_empty, all, All, Result, >>=-eq-ok,
  ok-injective, ok, Text, strip_prefix, ends_with, Lacks, is_whitespace, drop_end, trim_end_matches,
  ends_without, last-drop_end, ℕ, ◌≡◌, refl, sym, ◌∙◌, subst, ◌≢◌, inl, inr, Bool, true, false, not,
  none, some, List, [], ◌∷◌, map, arith,
}
use nivasa.Routing.Path.{slash, normalize_path}
use nivasa.Routing.Path.Segments.{IsSegment, split_path_segments-IsSegment}
use nivasa.Routing.Pattern.{
  RoutePatternSegment, literal, parameter, optional_parameter, wildcard, RoutePattern, static,
  pattern, RouteRegistryError, parse_segment, parse_optional, parse_star, parse_segments_from,
  parse_segments, parse, pattern_path, is_wildcard, is_literal, literal_text,
}
use nivasa.Routing.Pattern.Grammar.{IsName, IsReadable, IsWellFormed}
use nivasa.Routing.Pattern.RoundTrip.{route_of, parse-pattern_path_of_IsWellFormed}

strip_prefix-eq-some : (c : ℕ) (s r : Text) → strip_prefix c s ≡ some r → s ≡ c ∷ r
strip_prefix-eq-some c [] r e = cc
strip_prefix-eq-some c (x ∷ s) r e = ground (arith, ==_iff x c)

ne_of_is_empty : (s : Text) → is_empty s ≡ false → s ≢ []
ne_of_is_empty [] h = cc
ne_of_is_empty (x ∷ s) h = λ e. cc

drop_end-Lacks : (p : ℕ → Bool) (c : ℕ) (s : Text) → Lacks c s → Lacks c (drop_end p s)
drop_end-Lacks p c [] h = tt
drop_end-Lacks p c (x ∷ s) (n, h) = ground (arith, drop_end-Lacks p c s h)

ends_with_of_without :
    (c : ℕ) (s : Text) → ends_without (λ x. x == c) s ≡ true → ends_with c s ≡ false
ends_with_of_without c [] h = refl
ends_with_of_without c (x ∷ []) h = ground arith
ends_with_of_without c (x ∷ y ∷ s) h = ends_with_of_without c (y ∷ s) h

ends_with_tail : (c x : ℕ) (s : Text) → s ≢ [] → ends_with c (x ∷ s) ≡ ends_with c s
ends_with_tail c x [] n = absurd (n refl)
ends_with_tail c x (y ∷ s) n = refl

-- A name behind a mark.
IsName-of :
    (c : ℕ) (segment name : Text)
    → IsSegment segment
    → ends_with b'?' segment ≡ false
    → segment ≡ c ∷ name
    → is_empty name ≡ false
    → IsName name
IsName-of c segment name h q e n =
    let ne = ne_of_is_empty name n in
    (
      ne,
      (subst (Lacks slash) e h.1).1,
      sym (ends_with_tail b'?' c name ne) ∙ subst (λ s. ends_with b'?' s ≡ false) e q,
    )

optional_sound :
    (path segment : Text) (more : Bool) {parsed : RoutePatternSegment}
    → IsSegment segment
    → parse_optional path segment more ≡ ok parsed
    → IsReadable parsed (not more)
optional_sound path segment true h e = cc
optional_sound path segment false {parsed} h e = elim (Option-cases (strip_prefix b':' base)) [
  | inl f ↦ absurd (no_name f e)
  | inr (name, f) ↦ elim (Bool-cases (is_empty name)) [
    | inl g ↦ absurd (empty_name name f g e)
    | inr g ↦
        subst (λ s. IsReadable s true) (result name f g e)
          (
            IsName-of b':' base name (base_ne name f, drop_end-Lacks _ slash segment h.1)
                (ends_with_of_without b'?' base (last-drop_end _ segment))
                (strip_prefix-eq-some b':' base name f) g,
            refl,
          )
  ]
]
  where
    base : Text
    base = trim_end_matches b'?' segment

    base_ne : (name : Text) → strip_prefix b':' base ≡ some name → base ≢ []
    base_ne name f g = cc (strip_prefix-eq-some b':' base name f)

    no_name : strip_prefix b':' base ≡ none → parse_optional path segment false ≡ ok parsed → ⊥
    no_name f g = cc (rw (f, parse_optional) at g)

    empty_name :
        (name : Text)
        → strip_prefix b':' base ≡ some name
        → is_empty name ≡ true
        → parse_optional path segment false ≡ ok parsed
        → ⊥
    empty_name name f g k = ground arith

    result :
        (name : Text)
        → strip_prefix b':' base ≡ some name
        → is_empty name ≡ false
        → parse_optional path segment false ≡ ok parsed
        → optional_parameter name ≡ parsed
    result name f g k = ground arith

star_sound :
    (path segment : Text) (more : Bool) {parsed : RoutePatternSegment}
    → IsSegment segment
    → ends_with b'?' segment ≡ false
    → strip_prefix b':' segment ≡ none
    → parse_star path segment more ≡ ok parsed
    → IsReadable parsed (not more)
star_sound path segment more {parsed} h q c e = elim (Option-cases (strip_prefix b'*' segment)) [
  | inl f ↦
      let same : literal segment ≡ parsed = ground arith in
      subst (λ s. IsReadable s (not more)) same (h.0, h.1, q, c, f)
  | inr (name, f) ↦ elim (Bool-cases more) [
    | inl m ↦ cc (rw (f, parse_star) at (rw m at e))
    | inr m ↦ subst (λ b. IsReadable parsed (not b)) (sym m) (named name f m)
  ]
]
  where
    result :
        (name : Text)
        → strip_prefix b'*' segment ≡ some name
        → more ≡ false
        → wildcard (if is_empty name then none else some name) ≡ parsed
    result name f m = ground arith

    named :
        (name : Text)
        → strip_prefix b'*' segment ≡ some name
        → more ≡ false
        → IsReadable parsed true
    named name f m = elim (Bool-cases (is_empty name)) [
      | inl g ↦
          let same : wildcard none ≡ parsed = ground (arith, result name f m) in
          subst (λ s. IsReadable s true) same refl
      | inr g ↦
          let same : wildcard (some name) ≡ parsed = ground (arith, result name f m) in
          subst (λ s. IsReadable s true) same
            (IsName-of b'*' segment name h q (strip_prefix-eq-some b'*' segment name f) g, refl)
    ]

parse_segment_sound :
    (path segment : Text) (more : Bool) {parsed : RoutePatternSegment}
    → IsSegment segment
    → parse_segment path segment more ≡ ok parsed
    → IsReadable parsed (not more)
unfolding parse_segment
parse_segment_sound path segment more {parsed} h e = elim (Bool-cases (ends_with b'?' segment)) [
  | inl q ↦ optional_sound path segment more h (rw q at e)
  | inr q ↦ elim (Option-cases (strip_prefix b':' segment)) [
    | inl c ↦ star_sound path segment more h q c (star q c)
    | inr (name, c) ↦ elim (Bool-cases (is_empty name)) [
      | inl g ↦ absurd (empty_name name q c g)
      | inr g ↦
          subst (λ s. IsReadable s (not more)) (result name q c g)
            (IsName-of b':' segment name h q (strip_prefix-eq-some b':' segment name c) g)
    ]
  ]
]
  where
    star :
        ends_with b'?' segment ≡ false
        → strip_prefix b':' segment ≡ none
        → parse_star path segment more ≡ ok parsed
    star q c = rw (c, parse_segment) at (rw (q, parse_segment) at e)

    empty_name :
        (name : Text)
        → ends_with b'?' segment ≡ false
        → strip_prefix b':' segment ≡ some name
        → is_empty name ≡ true
        → ⊥
    empty_name name q c g = ground arith

    result :
        (name : Text)
        → ends_with b'?' segment ≡ false
        → strip_prefix b':' segment ≡ some name
        → is_empty name ≡ false
        → parameter name ≡ parsed
    result name q c g = ground arith

-- The parser's segments are well formed, and there are as many as there were texts.
pub parse_segments_from-IsWellFormed :
    (path : Text) (saw : Bool) (texts : List Text) {segments : List RoutePatternSegment}
    → All IsSegment texts
    → parse_segments_from path saw texts ≡ ok segments
    → IsWellFormed segments × (is_empty segments ≡ is_empty texts)
unfolding parse_segments_from
parse_segments_from-IsWellFormed path saw [] h e =
    subst (λ l. IsWellFormed l × (is_empty l ≡ true)) (ok-injective e) (tt, refl)
parse_segments_from-IsWellFormed path true (text ∷ texts) h e = cc
parse_segments_from-IsWellFormed path false (text ∷ texts) (h, hs) e =
    let (parsed, read, later) = >>=-eq-ok (parse_segment path text (not (is_empty texts))) _ e in
    let (rest, reads, whole) =
      >>=-eq-ok (parse_segments_from path (is_wildcard parsed) texts) _ later in
    let (formed, same) =
      parse_segments_from-IsWellFormed path (is_wildcard parsed) texts hs reads in
    subst (λ l. IsWellFormed l × (is_empty l ≡ false)) (ok-injective whole)
      (
        (
          subst (IsReadable parsed) (not_not (is_empty texts) ∙ sym same)
              (parse_segment_sound path text (not (is_empty texts)) h read),
          formed,
        ),
        refl,
      )
  where
    not_not : (b : Bool) → not (not b) ≡ b
    not_not true = refl
    not_not false = refl

-- A parsed route is made of well-formed segments.
pub parse-IsWellFormed :
    (path : Text) {route : RoutePattern}
    → parse path ≡ ok route
    → (segments : List RoutePatternSegment) × IsWellFormed segments × (route ≡ route_of segments)
unfolding parse parse_segments
parse-IsWellFormed path e =
    let (segments, read, whole) = >>=-eq-ok (parse_segments (normalize_path path)) _ e in
    (
      segments,
      (parse_segments_from-IsWellFormed (normalize_path path) false _
          (split_path_segments-IsSegment (normalize_path path)) read).0,
      ok-injective (sym whole ∙ made segments),
    )
  where
    made :
        (segments : List RoutePatternSegment)
        → ◌≡◌ {A = Result RouteRegistryError RoutePattern}
            (if all is_literal segments
              then ok (static (map literal_text segments))
              else ok (pattern segments))
            (ok (route_of segments))
    made segments = elim (Bool-cases (all is_literal segments)) [
      | inl h ↦ rw h refl
      | inr h ↦ rw h refl
    ]

-- Whatever text a route was parsed from, parsing its canonical path gives the same route, unless
-- that path ends in white space.
pub parse-pattern_path :
    (path : Text) (route : RoutePattern)
    → parse path ≡ ok route
    → ends_without is_whitespace (pattern_path route) ≡ true
    → parse (pattern_path route) ≡ ok route
parse-pattern_path path route e clean =
    let (segments, formed, same) = parse-IsWellFormed path e in
    subst (λ r. ends_without is_whitespace (pattern_path r) ≡ true → parse (pattern_path r) ≡ ok r)
      (sym same) (parse-pattern_path_of_IsWellFormed segments formed) clean
