-- ===== src/Statechart/Engine/Runs.antt =====
-- What a call and a sequence of calls of `send_event` do to the state.
use nivasa.Prelude.{
  if◌then◌else◌, Option-cases, ok, err, ◌≡◌, refl, sym, ap, subst, ◌⊎◌, inl, inr, Bool, true, false,
  none, some, List, [], ◌∷◌,
}
use nivasa.Statechart.Engine.{
  StatechartSpec, TransitionRecord, InvalidTransitionError, StatechartEngine, Sent, returned,
  panicked, record_transition, send_event, send_valid, send_invalid, send_all,
}

module _ {State Event : Type 0} (spec : StatechartSpec State Event) where
  pub record_transition-state :
      (debug : Bool) (entry : TransitionRecord) (self : StatechartEngine State)
      → (record_transition debug entry self).current_state ≡ self.current_state
  unfolding record_transition
  record_transition-state true entry self = refl
  record_transition-state false entry self = refl

  -- The states that the transition table leads to from a state, initial children entered.
  pub data Reachable (start : State) : State → Type 0 where
    begin : Reachable start start
    step :
        (here target : State) (event : Event)
        → Reachable start here
        → spec.transition here event ≡ some target
        → Reachable start (spec.enter_initial_state target)

  -- The error of a rejected event.
  abbrev pub rejection : State → Event → InvalidTransitionError State Event
  rejection state event = record {
    current_state = state;
    event = event;
    valid_events = spec.valid_events_for state;
  }

  -- How the build answers an error.
  abbrev pub answer : Bool → InvalidTransitionError State Event → Sent State Event
  answer debug failure = if debug then panicked failure else returned (err failure)

  pub send_event-valid :
      (debug : Bool) (event : Event) (target : State) (self : StatechartEngine State)
      → spec.transition self.current_state event ≡ some target
      → send_event spec debug event self ≡ send_valid spec debug event target self
  unfolding send_event send_valid
  send_event-valid debug event target self found = rw (found, send_event) refl

  pub send_event-invalid :
      (debug : Bool) (event : Event) (self : StatechartEngine State)
      → spec.transition self.current_state event ≡ none
      → send_event spec debug event self ≡ send_invalid spec debug event self
  unfolding send_event send_invalid
  send_event-invalid debug event self missing = rw (missing, send_event) refl

  -- A call of `send_event` either finds a transition in the table, makes the state the target with
  -- its initial child entered, and returns that state; or the table has none, the state stays what
  -- it was, and the call panics in a debug build and returns the error in a release build, the error
  -- holding the state, the event and the events that are valid in the state.
  pub send_event_lem :
      (debug : Bool) (event : Event) (self : StatechartEngine State)
      → ((target : State) × (spec.transition self.current_state event ≡ some target)
          × ((send_event spec debug event self).0.current_state ≡ spec.enter_initial_state target)
          × ((send_event spec debug event self).1
              ≡ returned (ok (spec.enter_initial_state target))))
        ⊎ ((spec.transition self.current_state event ≡ none)
            × ((send_event spec debug event self).0.current_state ≡ self.current_state)
            × ((send_event spec debug event self).1
                ≡ answer debug (rejection self.current_state event)))
  unfolding send_valid send_invalid
  send_event_lem debug event self = elim (Option-cases (spec.transition self.current_state event)) [
    | inl missing ↦ inr (
      missing,
      rw (send_event-invalid debug event self missing) (record_transition-state debug _ _),
      rw (send_event-invalid debug event self missing) (
          ap
            (λ state. answer debug (record {
              current_state = state;
              event = event;
              valid_events = spec.valid_events_for self.current_state;
            }))
            (record_transition-state debug _ _)),
    )
    | inr (target, found) ↦ inl (
      target,
      found,
      rw (send_event-valid debug event target self found) refl,
      rw (send_event-valid debug event target self found) refl,
    )
  ]

  send_event-Reachable :
      (debug : Bool) (start : State) (event : Event) (self : StatechartEngine State)
      → Reachable start self.current_state
      → Reachable start (send_event spec debug event self).0.current_state
  send_event-Reachable debug start event self r = elim (send_event_lem debug event self) [
    | inl (target, found, moved, sent) ↦
        subst (Reachable start) (sym moved) (step self.current_state target event r found)
    | inr (missing, kept, sent) ↦ subst (Reachable start) (sym kept) r
  ]

  -- Whatever events are sent, valid or not, the state of the engine is one that the transition
  -- table leads to from the state at the beginning: there is no other way to change it.
  pub send_all-Reachable :
      (debug : Bool) (start : State) (events : List Event) (self : StatechartEngine State)
      → Reachable start self.current_state
      → Reachable start (send_all spec debug events self).current_state
  unfolding send_all
  send_all-Reachable debug start [] self r = r
  send_all-Reachable debug start (event ∷ events) self r =
      send_all-Reachable debug start events (send_event spec debug event self).0
        (send_event-Reachable debug start event self r)
