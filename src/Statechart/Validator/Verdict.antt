-- ===== src/Statechart/Validator/Verdict.antt =====
-- When `validate` finds no errors.
use nivasa.Prelude.{
  Bool-cases, Option-cases, is_empty, All, append-eq-nil, flat_map-eq-nil, Text, codes, text_eq,
  text_eq_iff, ◌≡◌, refl, ◌≢◌, ◌↔◌, ◌⊎◌, inl, inr, true, false, Option, none, some, List, [], ◌∷◌,
  ◌++◌,
}
use nivasa.Statechart.Document.{Transition, State, ScxmlDocument, values, has_state}
use nivasa.Statechart.Validator.{
  Std, ValidationResult, is_valid, check_initial, check_initial_of, check_target, check_targets,
  check_event, check_event_names, check_reachability, check_reachability_from, start_state,
  is_valid_event_name, validate,
}
use nivasa.Statechart.Validator.Reach.{compute_reachable_lem}

-- The initial state is one of the document, or there is a top-level state to take.
abbrev pub InitialExists : ScxmlDocument → Option Text → Type 0
InitialExists doc none = is_empty doc.top_level_states ≡ false
InitialExists doc (some initial) = has_state doc initial ≡ true

abbrev pub TargetsExist : ScxmlDocument → State → Type 0
TargetsExist doc state =
    All (λ (t : Transition). All (λ target. has_state doc target ≡ true) t.target) state.transitions

abbrev IsEvent : Std → Option Text → Type 0
IsEvent chars none = Unit
IsEvent chars (some event) = (event ≡ codes "*") ⊎ (is_valid_event_name chars event ≡ true)

abbrev pub EventsNamed : Std → State → Type 0
EventsNamed chars state = All (λ (t : Transition). IsEvent chars t.event) state.transitions

check_initial_lem :
    (doc : ScxmlDocument) (initial : Option Text)
    → (check_initial_of doc initial ≡ []) ↔ InitialExists doc initial
unfolding check_initial_of
check_initial_lem doc none = elim (Bool-cases (is_empty doc.top_level_states)) [
  | inl k ↦ rw k (λ e. cc, λ e. cc)
  | inr k ↦ rw k (λ e. refl, λ e. refl)
]
check_initial_lem doc (some initial) = elim (Bool-cases (has_state doc initial)) [
  | inl k ↦ rw k (λ e. refl, λ e. refl)
  | inr k ↦ rw k (λ e. cc, λ e. cc)
]

check_target_lem :
    (doc : ScxmlDocument) (state : State) (target : Text)
    → (check_target doc state target ≡ []) ↔ (has_state doc target ≡ true)
unfolding check_target
check_target_lem doc state target = elim (Bool-cases (has_state doc target)) [
  | inl h ↦ rw h (λ e. refl, λ e. refl)
  | inr h ↦ rw h (λ e. cc, λ e. cc)
]

check_event_lem :
    (chars : Std) (state : State) (event : Option Text)
    → (check_event chars state event ≡ []) ↔ IsEvent chars event
unfolding check_event
check_event_lem chars state none = (λ e. tt, λ h. refl)
check_event_lem chars state (some event) =
    let star = text_eq_iff event (codes "*") in
    elim (Bool-cases (text_eq event (codes "*"))) [
      | inl h ↦ rw h (λ e. inl (star.0 h), λ k. refl)
      | inr h ↦ elim (Bool-cases (is_valid_event_name chars event)) [
        | inl k ↦ rw (h, k) (λ e. inr refl, λ e. refl)
        | inr k ↦ rw (h, k) (λ e. cc, λ e. elim e [ inl same ↦ cc | inr valid ↦ cc ])
      ]
    ]

check_reachability_total :
    (doc : ScxmlDocument) (start : Option Text) → check_reachability_from doc start ≢ none
unfolding check_reachability_from
check_reachability_total doc none = λ e. cc
check_reachability_total doc (some initial) =
    let (set, found, same) = compute_reachable_lem doc initial in rw found (λ e. cc)

check_reachability_ends : (doc : ScxmlDocument) → check_reachability doc ≢ none
unfolding check_reachability
check_reachability_ends doc = check_reachability_total doc (start_state doc)

is_empty_iff : {A : Type 0} (xs : List A) → (is_empty xs ≡ true) ↔ (xs ≡ [])
is_empty_iff [] = (λ e. refl, λ e. refl)
is_empty_iff (x ∷ xs) = (λ e. cc, λ e. cc)

module _ (chars : Std) (doc : ScxmlDocument) where
  targets_iff : (check_targets doc ≡ []) ↔ All (TargetsExist doc) (values doc)
  unfolding check_targets
  targets_iff =
      flat_map-eq-nil _
        (λ state.
          flat_map-eq-nil _
            (λ transition. flat_map-eq-nil _ (check_target_lem doc state) transition.target)
            state.transitions)
        (values doc)

  events_iff : (check_event_names chars doc ≡ []) ↔ All (EventsNamed chars) (values doc)
  unfolding check_event_names
  events_iff =
      flat_map-eq-nil _
        (λ state.
          flat_map-eq-nil _ (λ transition. check_event_lem chars state transition.event)
            state.transitions)
        (values doc)

  -- `validate` ends. Its result is valid exactly when the initial state exists, or there is a top-level
  -- state if none is named, all targets of transitions exist, and all events are "*" or valid names.
  pub validate-is_valid_iff :
      (result : ValidationResult) × (validate chars doc ≡ some result)
      × ((is_valid result ≡ true) ↔ (
          InitialExists doc doc.metadata.initial
          × All (TargetsExist doc) (values doc)
          × All (EventsNamed chars) (values doc)))
  unfolding validate is_valid check_initial
  validate-is_valid_iff = elim (Option-cases (check_reachability doc)) [
    | inl h ↦ absurd (check_reachability_ends doc h)
    | inr (unreachable_states, h) ↦
        let none_in_all =
          is_empty_iff (check_initial doc ++ (check_targets doc ++ check_event_names chars doc)) in
        let outer =
          append-eq-nil (check_initial doc) (check_targets doc ++ check_event_names chars doc) in
        let inner = append-eq-nil (check_targets doc) (check_event_names chars doc) in
        rw (h, validate)
          (
            _,
            refl,
            (
              λ e.
                  let (i, rest) = outer.0 (none_in_all.0 e) in
                  let (t, n) = inner.0 rest in
                  (
                    (check_initial_lem doc doc.metadata.initial).0 i,
                    targets_iff.0 t,
                    events_iff.0 n,
                  ),
              λ (i, t, n). none_in_all.1 (
                  outer.1 (
                    (check_initial_lem doc doc.metadata.initial).1 i,
                    inner.1 (targets_iff.1 t, events_iff.1 n),
                  )),
            ),
          )
  ]
