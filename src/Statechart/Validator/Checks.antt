-- ===== src/Statechart/Validator/Checks.antt =====
-- When the checks for dead ends and for ambiguous transitions of `validate` give no warnings.
use nivasa.Prelude.{
  if◌then◌else◌, Bool-cases, some-injective, is_some, is_empty, All, Text, text_eq_iff, ◌≡◌, refl,
  ap, ◌≢◌, ◌↔◌, ◌⊎◌, inl, inr, Bool, true, false, Option, none, some, List, [], ◌∷◌, arith,
}
use nivasa.Statechart.Document.{Transition, State, StateType, atomic, compound, parallel, final}
use nivasa.Statechart.Validator.{
  Std, is_final, is_parallel, event_eq, mem_event, check_dead_end, check_deterministic,
}

-- A state that is final or parallel, or has a transition or a child.
abbrev pub HasWayOut : State → Type 0
HasWayOut state =
    (state.state_type ≡ final)
    ⊎ ((state.state_type ≡ parallel) ⊎ ((state.transitions ≢ []) ⊎ (state.children ≢ [])))

pub is_final_iff : (t : StateType) → (is_final t ≡ true) ↔ (t ≡ final)
is_final_iff atomic = (λ e. cc, λ e. cc)
is_final_iff compound = (λ e. cc, λ e. cc)
is_final_iff parallel = (λ e. cc, λ e. cc)
is_final_iff final = (λ e. refl, λ e. refl)

is_parallel_iff : (t : StateType) → (is_parallel t ≡ true) ↔ (t ≡ parallel)
is_parallel_iff atomic = (λ e. cc, λ e. cc)
is_parallel_iff compound = (λ e. cc, λ e. cc)
is_parallel_iff parallel = (λ e. refl, λ e. refl)
is_parallel_iff final = (λ e. cc, λ e. cc)

not_empty_iff : {A : Type 0} (xs : List A) → (is_empty xs ≡ false) ↔ (xs ≢ [])
not_empty_iff [] = (λ e. cc, λ h. absurd (h refl))
not_empty_iff (x ∷ xs) = (λ e k. cc, λ h. refl)

pub differ : {b : Bool} → b ≡ false → b ≢ true
differ h k = cc

-- The events of the transitions without a condition.
abbrev pub unconditional : List Transition → List (Option Text)
unconditional [] = []
unconditional (t ∷ ts) =
    let rest = unconditional ts in if is_some t.cond then rest else t.event ∷ rest

abbrev pub AllDiffer : List (Option Text) → Type 0
AllDiffer [] = Unit
AllDiffer (event ∷ events) = All (λ other. event ≢ other) events × AllDiffer events

event_eq_iff : (a b : Option Text) → (event_eq a b ≡ true) ↔ (a ≡ b)
event_eq_iff none none = (λ e. refl, λ e. refl)
event_eq_iff none (some t) = (λ e. cc, λ e. cc)
event_eq_iff (some s) none = (λ e. cc, λ e. cc)
event_eq_iff (some s) (some t) =
    let same = text_eq_iff s t in (λ e. ap (λ x. some x) (same.0 e), λ e. same.1 (some-injective e))

-- Events that are not among `event ∷ seen` differ from `event` and are not among `seen`.
unseen_iff :
    (event : Option Text) (seen events : List (Option Text))
    → All (λ e. mem_event e (event ∷ seen) ≡ false) events
      ↔ (All (λ e. mem_event e seen ≡ false) events × All (λ other. event ≢ other) events)
unseen_iff event seen [] = (λ h. (tt, tt), λ h. tt)
unseen_iff event seen (e ∷ events) =
    let rest = unseen_iff event seen events in
    let same = event_eq_iff event e in
    (
      λ (h, hs).
          let (unseen, differ) = rest.0 hs in
          ((ground arith, unseen), (λ k. absurd (clash h (same.1 k)), differ)),
      λ ((h, hs), (d, ds)). (
        elim (Bool-cases (event_eq event e)) [
          | inl k ↦ absurd (d (same.0 k))
          | inr k ↦ ground arith
        ],
        rest.1 (hs, ds),
      ),
    )
  where
    clash : mem_event e (event ∷ seen) ≡ false → event_eq event e ≢ true
    clash h k = ground arith

check_deterministic_lem :
    (chars : Std) (state : State) (seen : List (Option Text)) (transitions : List Transition)
    → (check_deterministic chars state seen transitions ≡ []) ↔ (
        All (λ e. mem_event e seen ≡ false) (unconditional transitions)
        × AllDiffer (unconditional transitions))
unfolding check_deterministic
check_deterministic_lem chars state seen [] = (λ e. (tt, tt), λ h. refl)
check_deterministic_lem chars state seen (t ∷ ts) = elim (Bool-cases (is_some t.cond)) [
  | inl guarded ↦ rw guarded (check_deterministic_lem chars state seen ts)
  | inr free ↦ elim (Bool-cases (mem_event t.event seen)) [
    | inl old ↦ rw (free, old) (λ e. cc, λ ((h, hs), ds). cc)
    | inr new ↦
        let rest = check_deterministic_lem chars state (t.event ∷ seen) ts in
        let unseen = unseen_iff t.event seen (unconditional ts) in
        rw (free, new)
          (
            λ e.
                let (fresh, differ) = rest.0 e in
                let (hs, ds) = unseen.0 fresh in ((refl, hs), (ds, differ)),
            λ ((h, hs), (ds, differ)). rest.1 (unseen.1 (hs, ds), differ),
          )
  ]
]

pub check_dead_end_lem : (state : State) → (check_dead_end state ≡ []) ↔ HasWayOut state
unfolding check_dead_end
check_dead_end_lem state = elim (Bool-cases (is_final state.state_type)) [
  | inl f ↦ rw f (λ e. inl (finals.0 f), λ h. refl)
  | inr f ↦ elim (Bool-cases (is_parallel state.state_type)) [
    | inl p ↦ rw (f, p) (λ e. inr (inl (parallels.0 p)), λ h. refl)
    | inr p ↦ elim (Bool-cases (is_empty state.transitions)) [
      | inr t ↦ rw (f, p, t) (λ e. inr (inr (inl (transitions.0 t))), λ h. refl)
      | inl t ↦ elim (Bool-cases (is_empty state.children)) [
        | inr c ↦ rw (f, p, t, c) (λ e. inr (inr (inr (children.0 c))), λ h. refl)
        | inl c ↦
            rw (f, p, t, c)
              (
                λ e. cc,
                λ h. elim h [
                  | inl k ↦ absurd (differ f (finals.1 k))
                  | inr (inl k) ↦ absurd (differ p (parallels.1 k))
                  | inr (inr (inl k)) ↦ absurd (differ (transitions.1 k) t)
                  | inr (inr (inr k)) ↦ absurd (differ (children.1 k) c)
                ],
              )
      ]
    ]
  ]
]
  where
    finals : (is_final state.state_type ≡ true) ↔ (state.state_type ≡ final)
    finals = is_final_iff state.state_type

    parallels : (is_parallel state.state_type ≡ true) ↔ (state.state_type ≡ parallel)
    parallels = is_parallel_iff state.state_type

    transitions : (is_empty state.transitions ≡ false) ↔ (state.transitions ≢ [])
    transitions = not_empty_iff state.transitions

    children : (is_empty state.children ≡ false) ↔ (state.children ≢ [])
    children = not_empty_iff state.children

nothing_seen : (events : List (Option Text)) → All (λ e. mem_event e [] ≡ false) events
nothing_seen [] = tt
nothing_seen (e ∷ events) = (refl, nothing_seen events)

pub deterministic_iff :
    (chars : Std) (s : State)
    → (check_deterministic chars s [] s.transitions ≡ []) ↔ AllDiffer (unconditional s.transitions)
deterministic_iff chars s =
    let same = check_deterministic_lem chars s [] s.transitions in
    (λ k. (same.0 k).1, λ k. same.1 (nothing_seen (unconditional s.transitions), k))
