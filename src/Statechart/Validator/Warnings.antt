-- ===== src/Statechart/Validator/Warnings.antt =====
-- When `validate` gives no warnings.
use nivasa.Prelude.{
  Bool-cases, Option-cases, some-injective, first, all, All, append-eq-nil, flat_map-eq-nil, Text,
  mem_text, ◌≡◌, refl, sym, ap, ◌∙◌, subst, ◌↔◌, ◌⊎◌, inl, inr, true, Option, none, some, List, [],
  ◌++◌,
}
use mathlib.Core.List.{flat_map}
use nivasa.Statechart.Document.{State, ScxmlDocument, values, final}
use nivasa.Statechart.Validator.{
  Std, ValidationError, ValidationResult, is_final, check_reachable, check_dead_end,
  check_deterministic, check_reachability, check_reachability_from, start_state, validate,
  holds_parent,
}
use nivasa.Statechart.Validator.Successors.{Reaches}
use nivasa.Statechart.Validator.Reach.{compute_reachable_lem}
use nivasa.Statechart.Validator.Checks.{
  HasWayOut, unconditional, AllDiffer, is_final_iff, differ, check_dead_end_lem, deterministic_iff,
}

-- A state that the search may leave out, or that it finds, or whose parent it finds.
abbrev IsFound : ScxmlDocument → Text → State → Type 0
IsFound doc initial state =
    (Reaches doc initial state.id)
    ⊎ ((state.state_type ≡ final)
        ⊎ ((parent : Text) × (state.parent ≡ some parent) × Reaches doc initial parent))

-- Where the search starts: at the initial state of the document, or without one at its first
-- top-level state.
abbrev pub StartsAt : ScxmlDocument → Text → Type 0
StartsAt doc initial =
    (doc.metadata.initial ≡ some initial)
    ⊎ ((doc.metadata.initial ≡ none) × (first doc.top_level_states ≡ some initial))

abbrev pub AllFound : ScxmlDocument → Type 0
AllFound doc = (initial : Text) → StartsAt doc initial → All (IsFound doc initial) (values doc)

holds_parent_iff :
    (doc : ScxmlDocument) (initial : Text) (reachable : List Text) (parent : Option Text)
    → ((id : Text) → (mem_text id reachable ≡ true) ↔ Reaches doc initial id)
    → (holds_parent reachable parent ≡ true)
      ↔ ((p : Text) × (parent ≡ some p) × Reaches doc initial p)
holds_parent_iff doc initial reachable none same = (λ e. cc, λ (p, e, r). cc)
holds_parent_iff doc initial reachable (some parent) same = (
  λ e. (parent, refl, (same parent).0 e),
  λ (p, e, r). (same parent).1 (subst (Reaches doc initial) (sym (some-injective e)) r),
)

check_reachable_lem :
    (doc : ScxmlDocument) (initial : Text) (reachable : List Text) (state : State)
    → ((id : Text) → (mem_text id reachable ≡ true) ↔ Reaches doc initial id)
    → (check_reachable reachable state ≡ []) ↔ IsFound doc initial state
unfolding check_reachable
check_reachable_lem doc initial reachable state same =
    let own = same state.id in
    let parent = holds_parent_iff doc initial reachable state.parent same in
    elim (Bool-cases (mem_text state.id reachable)) [
      | inl m ↦ rw m (λ e. inl (own.0 m), λ h. refl)
      | inr m ↦ elim (Bool-cases (is_final state.state_type)) [
        | inl f ↦ rw (m, f) (λ e. inr (inl ((is_final_iff state.state_type).0 f)), λ h. refl)
        | inr f ↦ elim (Bool-cases (holds_parent reachable state.parent)) [
          | inl p ↦ rw (m, f, p) (λ e. inr (inr (parent.0 p)), λ h. refl)
          | inr p ↦
              rw (m, f, p)
                (
                  λ e. cc,
                  λ h. elim h [
                    | inl k ↦ absurd (differ m (own.1 k))
                    | inr (inl k) ↦ absurd (differ f ((is_final_iff state.state_type).1 k))
                    | inr (inr k) ↦ absurd (differ p (parent.1 k))
                  ],
                )
        ]
      ]
    ]

start_iff :
    (doc : ScxmlDocument) (initial : Text) → (start_state doc ≡ some initial) ↔ StartsAt doc initial
unfolding start_state
start_iff doc initial = elim (Option-cases doc.metadata.initial) [
  | inl none_given ↦ rw none_given (λ e. inr (refl, e), λ h. elim h [ inl k ↦ cc | inr (k, e) ↦ e ])
  | inr (given, e) ↦ rw e (λ k. inl k, λ h. elim h [ inl k ↦ k | inr (k, m) ↦ cc ])
]

check_reachability_lem :
    (doc : ScxmlDocument) (start : Option Text) (found : List ValidationError)
    → check_reachability_from doc start ≡ some found
    → (found ≡ [])
      ↔ ((initial : Text) → start ≡ some initial → All (IsFound doc initial) (values doc))
unfolding check_reachability_from
check_reachability_lem doc none found e = (λ k initial h. cc, λ h. sym (some-injective e))
check_reachability_lem doc (some initial) found e =
    let (reachable, searched, same) = compute_reachable_lem doc initial in
    let all_states =
      flat_map-eq-nil (check_reachable reachable)
        (λ state. check_reachable_lem doc initial reachable state same) (values doc) in
    let listed : flat_map (check_reachable reachable) (values doc) ≡ found =
      some-injective (rw searched at e) in
    (
      λ k other h.
          subst (λ i. All (IsFound doc i) (values doc)) (some-injective h)
            (all_states.0 (listed ∙ k)),
      λ h. sym listed ∙ all_states.1 (h initial refl),
    )

search_iff :
    (doc : ScxmlDocument) (found : List ValidationError)
    → check_reachability doc ≡ some found
    → (found ≡ []) ↔ AllFound doc
unfolding check_reachability
search_iff doc found h =
    let lem = check_reachability_lem doc (start_state doc) found h in
    (
      λ e initial starts. lem.0 e initial ((start_iff doc initial).1 starts),
      λ all_found. lem.1 (λ initial k. all_found initial ((start_iff doc initial).0 k)),
    )

three_parts :
    {A : Type 0} {P Q R : Type 0} (all xs ys zs : List A)
    → xs ++ (ys ++ zs) ≡ all
    → (xs ≡ []) ↔ P
    → (ys ≡ []) ↔ Q
    → (zs ≡ []) ↔ R
    → (all ≡ []) ↔ (P × Q × R)
three_parts all xs ys zs whole p q r =
    let outer = append-eq-nil xs (ys ++ zs) in
    let inner = append-eq-nil ys zs in
    (
      λ e.
          let (hx, rest) = outer.0 (whole ∙ e) in
          let (hy, hz) = inner.0 rest in (p.0 hx, q.0 hy, r.0 hz),
      λ (hp, hq, hr). sym whole ∙ outer.1 (p.1 hp, inner.1 (q.1 hq, r.1 hr)),
    )

module _ (chars : Std) (doc : ScxmlDocument) where
  -- A result has no warnings exactly when: the search from the initial state, or without one from the
  -- first top-level state, finds each state, or its parent, or the state is final (a final state
  -- need not be found); each state that is not final,
  -- parallel or compound with children has a transition; and no state has two transitions without
  -- a condition for the same event (transitions with a condition are not compared).
  pub validate-warnings_iff :
      (result : ValidationResult)
      → validate chars doc ≡ some result
      → (result.warnings ≡ []) ↔ (
          AllFound doc
          × All HasWayOut (values doc)
          × All (λ (s : State). AllDiffer (unconditional s.transitions)) (values doc))
  unfolding validate
  validate-warnings_iff result e = elim (Option-cases (check_reachability doc)) [
    | inl h ↦ cc (rw (h, validate) at e)
    | inr (found, h) ↦
        three_parts result.warnings found _ _
          (ap (λ r. r.warnings) (some-injective (rw (h, validate) at e))) (search_iff doc found h)
          (flat_map-eq-nil check_dead_end check_dead_end_lem (values doc))
          (flat_map-eq-nil (λ (s : State). check_deterministic chars s [] s.transitions)
            (deterministic_iff chars) (values doc))
  ]
