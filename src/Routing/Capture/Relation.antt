-- ===== src/Routing/Capture/Relation.antt =====
-- When a pattern matches a list of segments, as a relation that knows nothing of the search order.
use nivasa.Prelude.{
  if◌then◌else◌, Bool-cases, Option-cases, is_some, Text, text_eq, text_eq_iff, join, ◌≡◌, refl,
  ◌∙◌, subst, ◌↔◌, ◌⊎◌, inl, inr, Bool, true, false, Option, none, some, List, [], ◌∷◌, ◌++◌, arith,
}
use mathlib.Core.Logic.{∥∥₁_elim}
use mathlib.Core.List.{append_assoc}
use nivasa.Routing.Path.{slash}
use nivasa.Routing.Pattern.{RoutePatternSegment, literal, parameter, optional_parameter, wildcard}
use nivasa.Routing.Capture.{
  RoutePathCaptures, no_captures, push_parameter, wildcard_key, captures_iter, or_else,
  matches_pattern_from, capture_pattern,
}

-- The third index lists what is captured, in the order of the pattern.
pub data Matches : List RoutePatternSegment → List Text → List (Text × Text) → Type 0 where
  done : Matches [] [] []
  literally :
      {segments : List RoutePatternSegment} {candidate : List Text} {found : List (Text × Text)}
      {actual expected : Text}
      → actual ≡ expected
      → Matches segments candidate found
      → Matches (literal expected ∷ segments) (actual ∷ candidate) found
  named :
      {segments : List RoutePatternSegment} {candidate : List Text} {found : List (Text × Text)}
      {name value : Text}
      → Matches segments candidate found
      → Matches (parameter name ∷ segments) (value ∷ candidate) ((name, value) ∷ found)
  skipped :
      {segments : List RoutePatternSegment} {candidate : List Text} {found : List (Text × Text)}
      {name : Text}
      → Matches segments candidate found
      → Matches (optional_parameter name ∷ segments) candidate found
  taken :
      {segments : List RoutePatternSegment} {candidate : List Text} {found : List (Text × Text)}
      {name value : Text}
      → Matches segments candidate found
      → Matches (optional_parameter name ∷ segments) (value ∷ candidate) ((name, value) ∷ found)
  remainder :
      {candidate : List Text} {name : Option Text}
      → Matches (wildcard name ∷ []) candidate ((wildcard_key name, join slash candidate) ∷ [])

-- A successful run from captures without a wildcard adds what some match captures.
abbrev Extends :
    List RoutePatternSegment → List Text → RoutePathCaptures → RoutePathCaptures → Type 0
Extends segments candidate old new =
    (found : List (Text × Text)) × Matches segments candidate found
    × (captures_iter new ≡ old.parameters ++ found)

push-Extends :
    {segments rest : List RoutePatternSegment} {candidate left : List Text} (name value : Text)
    (old new : RoutePathCaptures)
    → ((found : List (Text × Text))
        → Matches segments candidate found
        → Matches rest left ((name, value) ∷ found))
    → Extends segments candidate (push_parameter name value old) new
    → Extends rest left old new
push-Extends name value old new rule (found, m, e) = (
  (name, value) ∷ found,
  rule found m,
  e ∙ append_assoc old.parameters ((name, value) ∷ []) found,
)

or_else_cases :
    (r t : Bool × RoutePathCaptures) (new : RoutePathCaptures)
    → or_else r t ≡ (true, new)
    → (r ≡ (true, new)) ⊎ (t ≡ (true, new))
or_else_cases (true, c) t new e = inl e
or_else_cases (false, c) t new e = inr e

or_else_left : (r t : Bool × RoutePathCaptures) → r.0 ≡ true → (or_else r t).0 ≡ true
or_else_left (true, c) t e = refl
or_else_left (false, c) t e = cc

or_else_right : (r t : Bool × RoutePathCaptures) → t.0 ≡ true → (or_else r t).0 ≡ true
or_else_right (true, c) t e = refl
or_else_right (false, c) t e = e

matches_pattern_from_sound :
    (segments : List RoutePatternSegment) (candidate : List Text) (old : RoutePathCaptures)
    (new : RoutePathCaptures)
    → old.wildcard_value ≡ none
    → matches_pattern_from segments candidate old ≡ (true, new)
    → Extends segments candidate old new
unfolding matches_pattern_from captures_iter
matches_pattern_from_sound [] [] old new w e = (
  [],
  done,
  subst (λ (r : Bool × RoutePathCaptures). captures_iter r.1 ≡ old.parameters ++ []) e (rw w),
)
matches_pattern_from_sound [] (c ∷ candidate) old new w e = absurd (ground arith)
matches_pattern_from_sound (literal expected ∷ segments) [] old new w e = absurd (ground arith)
matches_pattern_from_sound (literal expected ∷ segments) (actual ∷ candidate) old new w e =
    elim (Bool-cases (text_eq actual expected)) [
      | inr other ↦ absurd (ground arith)
      | inl same ↦
          let (found, m, f) =
            matches_pattern_from_sound segments candidate old new w (rw same at e) in
          (found, literally ((text_eq_iff actual expected).0 same) m, f)
    ]
matches_pattern_from_sound (parameter name ∷ segments) [] old new w e = absurd (ground arith)
matches_pattern_from_sound (parameter name ∷ segments) (value ∷ candidate) old new w e =
    push-Extends name value old new (λ found m. named m)
      (matches_pattern_from_sound segments candidate (push_parameter name value old) new w e)
matches_pattern_from_sound (optional_parameter name ∷ segments) [] old new w e =
    elim (or_else_cases (matches_pattern_from segments [] old) (false, old) new e) [
      | inl left ↦
          let (found, m, f) = matches_pattern_from_sound segments [] old new w left in
          (found, skipped m, f)
      | inr no_value ↦ absurd (ground arith)
    ]
matches_pattern_from_sound (optional_parameter name ∷ segments) (value ∷ candidate) old new w e =
    elim (or_else_cases (matches_pattern_from segments (value ∷ candidate) old)
      (matches_pattern_from segments candidate (push_parameter name value old)) new e) [
        | inl left ↦
            let (found, m, f) =
              matches_pattern_from_sound segments (value ∷ candidate) old new w left in
            (found, skipped m, f)
        | inr right ↦
            push-Extends name value old new (λ found m. taken m)
              (matches_pattern_from_sound segments candidate (push_parameter name value old) new w
                right)
      ]
matches_pattern_from_sound (wildcard name ∷ []) candidate old new w e = (
  (wildcard_key name, join slash candidate) ∷ [],
  remainder,
  subst
      (λ (r : Bool × RoutePathCaptures).
        captures_iter r.1 ≡ old.parameters ++ ((wildcard_key name, join slash candidate) ∷ []))
      e refl,
)
matches_pattern_from_sound (wildcard name ∷ segment ∷ segments) candidate old new w e =
    absurd (ground arith)

matches_pattern_from_complete :
    {segments : List RoutePatternSegment} {candidate : List Text} {found : List (Text × Text)}
    (old : RoutePathCaptures)
    → Matches segments candidate found
    → (matches_pattern_from segments candidate old).0 ≡ true
unfolding matches_pattern_from
matches_pattern_from_complete old done = refl
matches_pattern_from_complete old (literally {actual} {expected} e m) =
    rw ((text_eq_iff actual expected).1 e) (matches_pattern_from_complete old m)
matches_pattern_from_complete old (named {name} {value} m) =
    matches_pattern_from_complete (push_parameter name value old) m
matches_pattern_from_complete old (skipped {candidate = []} m) =
    or_else_left _ _ (matches_pattern_from_complete old m)
matches_pattern_from_complete old (skipped {candidate = c ∷ cs} m) =
    or_else_left _ _ (matches_pattern_from_complete old m)
matches_pattern_from_complete old (taken {name} {value} m) =
    or_else_right _ _ (matches_pattern_from_complete (push_parameter name value old) m)
matches_pattern_from_complete old remainder = refl

-- What is captured, in order, is what a match of the pattern with the segments captures.
pub capture_pattern_sound :
    (segments : List RoutePatternSegment) (candidate : List Text) (found : RoutePathCaptures)
    → capture_pattern segments candidate ≡ some found
    → Matches segments candidate (captures_iter found)
unfolding capture_pattern
capture_pattern_sound segments candidate found e =
    let (listed, m, f) =
      matches_pattern_from_sound segments candidate no_captures found refl
        (taken_result (matches_pattern_from segments candidate no_captures) e) in
    rw f m
  where
    taken_result :
        (r : Bool × RoutePathCaptures)
        → (if r.0 then some r.1 else none) ≡ some found
        → r ≡ (true, found)
    taken_result (true, c) h = ground arith
    taken_result (false, c) h = cc

-- The search with its backtracking finds captures exactly when some match exists.
pub capture_pattern_iff :
    (segments : List RoutePatternSegment) (candidate : List Text)
    → (is_some (capture_pattern segments candidate) ≡ true)
      ↔ ∥ ((found : List (Text × Text)) × Matches segments candidate found) ∥₁
unfolding capture_pattern
capture_pattern_iff segments candidate = (
  λ h. elim (Option-cases (capture_pattern segments candidate)) [
    | inl e ↦ absurd (impossible e h)
    | inr (found, e) ↦ ∣ (captures_iter found, capture_pattern_sound segments candidate found e) ∣₁
  ],
  λ t. ∥∥₁_elim t (hlevel) (λ (found, m). kept _ (matches_pattern_from_complete no_captures m)),
)
  where
    impossible : {o : Option RoutePathCaptures} → o ≡ none → is_some o ≡ true → ⊥
    impossible e h = ground arith

    kept :
        (r : Bool × RoutePathCaptures)
        → r.0 ≡ true
        → is_some (if r.0 then some r.1 else none) ≡ true
    kept (true, c) h = refl
    kept (false, c) h = cc
