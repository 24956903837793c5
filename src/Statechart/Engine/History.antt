-- ===== src/Statechart/Engine/History.antt =====
-- The history of transitions and the calls of the tracer, against the list of all attempts.
use nivasa.Prelude.{
  leb, if◌then◌else◌, Bool-cases, Option-cases, length, length-append, ℕ, zero, suc, ◌-◌, ◌≤◌, ◌<◌,
  ◌≡◌, refl, ap, ◌∙◌, subst, inl, inr, Bool, true, false, none, some, List, [], ◌∷◌, ◌++◌, map,
  arith,
}
use nivasa.Statechart.Engine.Runs.{send_event-valid, send_event-invalid, record_transition-state}
use mathlib.Core.List.{append-nil, append_assoc}
use nivasa.Statechart.Engine.{
  recent_transitions, StatechartSpec, TransitionRecord, TracerCall, on_transition,
  on_invalid_transition, valid_record, invalid_record, StatechartEngine, record_transition,
  send_event, send_valid, send_invalid, send_all, pop_front, call_tracer, max_recent_transitions,
  new, with_tracer,
}

-- `n` elements less at the front.
unfoldable pub drop_front {ℓ} : {A : Type ℓ} → ℕ → List A → List A
drop_front zero xs = xs
drop_front (suc n) [] = []
drop_front (suc n) (x ∷ xs) = drop_front n xs

-- The last elements, at most as many as the history holds.
unfoldable pub latest {ℓ} : {A : Type ℓ} → List A → List A
latest xs = drop_front (length xs - max_recent_transitions) xs

module _ {ℓ} {A : Type ℓ} where
  drop_front-snoc :
      (n : ℕ) (xs : List A) (x : A)
      → n ≤ length xs
      → drop_front n (xs ++ (x ∷ [])) ≡ drop_front n xs ++ (x ∷ [])
  unfolding drop_front
  drop_front-snoc zero xs x h = refl
  drop_front-snoc (suc n) [] x h = absurd (omega (arith, h))
  drop_front-snoc (suc n) (y ∷ xs) x h = drop_front-snoc n xs x (omega (arith, h))

  drop_front-suc : (n : ℕ) (xs : List A) → drop_front (suc n) xs ≡ pop_front (drop_front n xs)
  unfolding drop_front
  drop_front-suc zero [] = refl
  drop_front-suc zero (x ∷ xs) = refl
  drop_front-suc (suc n) [] = refl
  drop_front-suc (suc n) (x ∷ xs) = drop_front-suc n xs

  length-drop_front : (n : ℕ) (xs : List A) → length (drop_front n xs) ≡ length xs - n
  unfolding drop_front
  length-drop_front zero xs = omega arith
  length-drop_front (suc n) [] = omega arith
  length-drop_front (suc n) (x ∷ xs) = omega (arith, length-drop_front n xs)

  latest_full :
      (xs : List A)
      → leb max_recent_transitions (length (latest xs)) ≡ true
      → (max_recent_transitions ≤ length xs)
  unfolding latest
  latest_full xs full = ground (arith, length-drop_front (length xs - 64) xs)

  latest_room :
      (xs : List A)
      → leb max_recent_transitions (length (latest xs)) ≡ false
      → length xs < max_recent_transitions
  unfolding latest
  latest_room xs room = ground (arith, length-drop_front (length xs - 64) xs)

  -- One record more: what the queue does keeps the latest.
  latest-snoc :
      (xs : List A) (x : A)
      → latest (xs ++ (x ∷ []))
        ≡ (if leb max_recent_transitions (length (latest xs))
            then pop_front (latest xs)
            else latest xs)
          ++ (x ∷ [])
  unfolding latest
  latest-snoc xs x = elim (Bool-cases (leb max_recent_transitions (length (latest xs)))) [
    | inl full ↦ rw full (full_step (latest_full xs full))
    | inr room ↦ rw room (room_step (latest_room xs room))
  ]
    where
      grown :
          max_recent_transitions ≤ length xs
          → suc (length xs - 64) ≡ length (xs ++ (x ∷ [])) - max_recent_transitions
      grown h = omega (arith, h, length-append xs (x ∷ []))

      same :
          length xs < max_recent_transitions
          → length xs - 64 ≡ length (xs ++ (x ∷ [])) - max_recent_transitions
      same h = omega (arith, h, length-append xs (x ∷ []))

      full_step :
          max_recent_transitions ≤ length xs
          → latest (xs ++ (x ∷ [])) ≡ pop_front (latest xs) ++ (x ∷ [])
      full_step h =
          subst (λ n. drop_front n (xs ++ (x ∷ [])) ≡ pop_front (latest xs) ++ (x ∷ [])) (grown h)
            (drop_front-snoc (suc (length xs - 64)) xs x (omega (arith, h))
              ∙ ap (λ l. l ++ (x ∷ [])) (drop_front-suc (length xs - 64) xs))

      room_step :
          length xs < max_recent_transitions → latest (xs ++ (x ∷ [])) ≡ latest xs ++ (x ∷ [])
      room_step h =
          subst (λ n. drop_front n (xs ++ (x ∷ [])) ≡ latest xs ++ (x ∷ [])) (same h)
            (drop_front-snoc (length xs - 64) xs x (omega arith))

module _ {State Event : Type 0} (spec : StatechartSpec State Event) where
  -- The state that the table gives for an event; the state itself if it has no transition.
  abbrev pub next_state : State → Event → State
  next_state state event = elim (spec.transition state event) [
    | none ↦ state
    | some target ↦ spec.enter_initial_state target
  ]

  -- The record of one attempt, and the tracer's call for it.
  abbrev pub attempt : State → Event → TransitionRecord
  attempt state event = elim (spec.transition state event) [
    | none ↦
        invalid_record (spec.show_state state) (spec.show_event event)
          (map spec.show_event (spec.valid_events_for state))
    | some target ↦
        valid_record (spec.show_state state) (spec.show_event event)
          (spec.show_state (spec.enter_initial_state target))
  ]

  abbrev pub traced_attempt : State → Event → TracerCall
  traced_attempt state event = elim (spec.transition state event) [
    | none ↦
        on_invalid_transition (spec.show_state state) (spec.show_event event)
          (map spec.show_event (spec.valid_events_for state))
    | some target ↦
        on_transition (spec.show_state state) (spec.show_event event)
          (spec.show_state (spec.enter_initial_state target))
  ]

  -- All attempts of a sequence of events, in order, each made by `f`.
  unfoldable pub attempts {ℓ} : {A : Type ℓ} → (State → Event → A) → State → List Event → List A
  attempts f state [] = []
  attempts f state (event ∷ events) = f state event ∷ attempts f (next_state state event) events

  record_transition-tracer :
      (debug : Bool) (entry : TransitionRecord) (self : StatechartEngine State)
      → (record_transition debug entry self).tracer ≡ self.tracer
  unfolding record_transition
  record_transition-tracer true entry self = refl
  record_transition-tracer false entry self = refl

  send_event-state :
      (debug : Bool) (event : Event) (self : StatechartEngine State)
      → (send_event spec debug event self).0.current_state ≡ next_state self.current_state event
  unfolding send_valid send_invalid
  send_event-state debug event self =
      elim (Option-cases (spec.transition self.current_state event)) [
        | inl missing ↦
            rw (send_event-invalid spec debug event self missing)
              (rw (missing, next_state) (record_transition-state spec debug _ _))
        | inr (target, found) ↦
            rw (send_event-valid spec debug event target self found) (rw (found, next_state) refl)
      ]

  send_event-record :
      (event : Event) (self : StatechartEngine State)
      → (send_event spec true event self).0.recent_transitions
        ≡ (record_transition true (attempt self.current_state event) self).recent_transitions
  unfolding send_valid send_invalid record_transition
  send_event-record event self = elim (Option-cases (spec.transition self.current_state event)) [
    | inl missing ↦
        rw (send_event-invalid spec true event self missing) (rw (missing, attempt) refl)
    | inr (target, found) ↦
        rw (send_event-valid spec true event target self found) (rw (found, attempt) refl)
  ]

  send_event-tracer :
      (debug : Bool) (event : Event) (self : StatechartEngine State)
      → (send_event spec debug event self).0.tracer
        ≡ call_tracer (traced_attempt self.current_state event) self.tracer
  unfolding send_valid send_invalid record_transition
  send_event-tracer debug event self =
      elim (Option-cases (spec.transition self.current_state event)) [
        | inl missing ↦
            rw (send_event-invalid spec debug event self missing)
              (rw (missing, traced_attempt) (record_transition-tracer debug _ _))
        | inr (target, found) ↦
            rw (send_event-valid spec debug event target self found)
              (rw (found, traced_attempt) (record_transition-tracer debug _ _))
      ]

  record_transition-latest :
      (entry : TransitionRecord) (prior : List TransitionRecord) (self : StatechartEngine State)
      → self.recent_transitions ≡ latest prior
      → (record_transition true entry self).recent_transitions ≡ latest (prior ++ (entry ∷ []))
  unfolding record_transition
  record_transition-latest entry prior self e = rw (e, latest-snoc prior entry) refl

  send_all-latest :
      (events : List Event) (prior : List TransitionRecord) (self : StatechartEngine State)
      → self.recent_transitions ≡ latest prior
      → (send_all spec true events self).recent_transitions
        ≡ latest (prior ++ attempts attempt self.current_state events)
  unfolding send_all attempts
  send_all-latest [] prior self e = rw append-nil e
  send_all-latest (event ∷ events) prior self e =
      let next = (send_event spec true event self).0 in
      let kept =
        send_event-record event self
        ∙ record_transition-latest (attempt self.current_state event) prior self e in
      let grown = prior ++ (attempt self.current_state event ∷ []) in
      send_all-latest events grown next kept
      ∙ ap (λ state. latest (grown ++ attempts attempt state events))
          (send_event-state true event self)
      ∙ ap latest (
          append_assoc prior (attempt self.current_state event ∷ [])
            (attempts attempt (next_state self.current_state event) events))

  -- In a debug build the history of an engine that began in a state and was sent any events is the
  -- list of all its attempts, the valid and the rejected ones, in order, cut to the latest 64.
  pub recent_transitions_lem :
      (initial_state : State) (events : List Event)
      → recent_transitions spec true (send_all spec true events (new spec initial_state))
        ≡ latest (attempts attempt (spec.enter_initial_state initial_state) events)
  unfolding recent_transitions new latest drop_front
  recent_transitions_lem initial_state events =
      send_all-latest events [] (new spec initial_state) refl

  send_all-tracer :
      (debug : Bool) (events : List Event) (calls : List TracerCall) (self : StatechartEngine State)
      → self.tracer ≡ some calls
      → (send_all spec debug events self).tracer
        ≡ some (calls ++ attempts traced_attempt self.current_state events)
  unfolding send_all attempts
  send_all-tracer debug [] calls self e = rw append-nil e
  send_all-tracer debug (event ∷ events) calls self e =
      let next = (send_event spec debug event self).0 in
      let called =
        send_event-tracer debug event self
        ∙ ap (call_tracer (traced_attempt self.current_state event)) e in
      let grown = calls ++ (traced_attempt self.current_state event ∷ []) in
      send_all-tracer debug events grown next called
      ∙ ap (λ state. some (grown ++ attempts traced_attempt state events))
          (send_event-state debug event self)
      ∙ ap some (
          append_assoc calls (traced_attempt self.current_state event ∷ [])
            (attempts traced_attempt (next_state self.current_state event) events))

  -- In both builds the tracer of an engine is called once for each event that is sent, in their
  -- order, with the state, the event, and the state entered or the events that were valid.
  pub with_tracer_lem :
      (debug : Bool) (initial_state : State) (events : List Event)
      → (send_all spec debug events (with_tracer spec initial_state [])).tracer
        ≡ some (attempts traced_attempt (spec.enter_initial_state initial_state) events)
  unfolding with_tracer
  with_tracer_lem debug initial_state events =
      send_all-tracer debug events [] (with_tracer spec initial_state []) refl
