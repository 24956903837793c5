-- ===== src/Statechart/Engine.antt =====
-- `StatechartEngine` of nivasa-statechart/src/engine.rs. The trait `StatechartSpec`, which generated
-- code implements, is a record that the operations take. `format!("{:?}", ..)` of a state and of an
-- event, which are derived code, are fields of that record too. `debug` is `cfg!(debug_assertions)`.
-- A tracer is the list of the calls that it has had, in their order.
pub mod Runs
pub mod History
use nivasa.Prelude.{
  ltb, leb, ◌==◌, if◌then◌else◌, ==_iff, ==_refl, Bool-cases, Option-cases, is_some, is_none,
  length, is_empty, first, last, pop, pop-snoc, get_elem?, any, all, find, keep, replicate,
  length-append, All, All-append, All-map, Result, ◌>>=◌, map_err, Result-cases, >>=-eq-ok,
  ok-injective, ok, err, Text, codes, text_eq, text_eq_iff, text_eq_refl, strip_prefix, ends_with,
  starts_with, upper_char, to_ascii_uppercase, split, join, join_with, Lacks, split_whole,
  split-append, push_head-All, split-Lacks, keep-nonempty, is_whitespace, drop_while, drop_end,
  trim_start_matches, trim_end_matches, trim_matches, trim, ends_without, begins_without,
  drop_while_id, drop_end_id, last-drop_end, first-drop_while, last-append, trim_id, Below,
  insert_by, sort_by, IsSortedBy, insert_by-perm, sort_by-perm, IsPreorder, sort_by-IsSortedBy, mem,
  insert_set, remove_set, remove_set_fresh, remove_set_head, lookup, insert_map, keys, mem-keys,
  lookup-insert_map, count_outside, count_outside-le, count_outside-lt, Run, and_run, done, fail,
  and_run-eq-done, ℕ, zero, suc, ◌+◌, ◌-◌, ◌*◌, ◌≤◌, ◌<◌, compare, Ordering, ◌≡◌, refl, sym, ap,
  ◌∙◌, subst, ◌≢◌, ◌↔◌, ◌⊎◌, inl, inr, Bool, true, false, ◌&&◌, ◌||◌, not, Option, none, some, List,
  [], ◌∷◌, ◌++◌, map, arith,
}

pub record StatechartSpec (State Event : Type 0) : Type 0 where
  pub transition : State → Event → Option State
  pub valid_events_for : State → List Event
  pub enter_initial_state : State → State
  pub is_final : State → Bool
  pub name : Text
  pub scxml_hash : Text
  pub show_state : State → Text
  pub show_event : Event → Text

-- A call of a method of `StatechartTracer`.
pub data TracerCall : Type 0 where
  on_transition : (from event to : Text) → TracerCall
  on_invalid_transition : (from event : Text) (valid_events : List Text) → TracerCall

pub data TransitionKind : Type 0 where
  valid_kind invalid_kind : TransitionKind

pub record TransitionRecord : Type 0 where
  pub kind : TransitionKind
  pub from : Text
  pub event : Text
  pub to : Option Text
  pub valid_events : List Text

unfoldable pub valid_record : Text → Text → Text → TransitionRecord
valid_record from event to = record {
  kind = valid_kind;
  from = from;
  event = event;
  to = some to;
  valid_events = [];
}

unfoldable pub invalid_record : Text → Text → List Text → TransitionRecord
invalid_record from event valid_events = record {
  kind = invalid_kind;
  from = from;
  event = event;
  to = none;
  valid_events = valid_events;
}

pub record StatechartSnapshot : Type 0 where
  pub statechart_name : Text
  pub current_state : Text
  pub scxml_hash : Text
  pub raw_scxml : Option Text
  pub recent_transitions : List TransitionRecord

pub record InvalidTransitionError (State Event : Type 0) : Type 0 where
  pub current_state : State
  pub event : Event
  pub valid_events : List Event

pub record StatechartEngine (State : Type 0) : Type 0 where
  pub current_state : State
  pub tracer : Option (List TracerCall)
  pub recent_transitions : List TransitionRecord

-- What a call of `send_event` does: it returns, or it panics with the error as its message.
pub data Sent (State Event : Type 0) : Type 0 where
  returned : Result (InvalidTransitionError State Event) State → Sent State Event
  panicked : InvalidTransitionError State Event → Sent State Event

abbrev pub max_recent_transitions : ℕ
max_recent_transitions = 64

-- `VecDeque::pop_front`, its queue.
abbrev pub pop_front {ℓ} : {A : Type ℓ} → List A → List A
pop_front [] = []
pop_front (x ∷ xs) = xs

abbrev pub call_tracer : TracerCall → Option (List TracerCall) → Option (List TracerCall)
call_tracer call none = none
call_tracer call (some calls) = some (calls ++ (call ∷ []))

module _ {State : Type 0} where
  -- The two builds of `record_transition`.
  unfoldable pub record_transition :
      Bool → TransitionRecord → StatechartEngine State → StatechartEngine State
  record_transition true entry self =
      let kept =
        if leb max_recent_transitions (length self.recent_transitions)
        then pop_front self.recent_transitions
        else self.recent_transitions in
      record self { recent_transitions = kept ++ (entry ∷ []) }
  record_transition false entry self = self

module _ {State Event : Type 0} (spec : StatechartSpec State Event) where
  unfoldable pub new : State → StatechartEngine State
  new initial_state = record {
    current_state = spec.enter_initial_state initial_state;
    tracer = none;
    recent_transitions = [];
  }

  unfoldable pub with_tracer : State → List TracerCall → StatechartEngine State
  with_tracer initial_state calls = record {
    current_state = spec.enter_initial_state initial_state;
    tracer = some calls;
    recent_transitions = [];
  }

  -- The branch of `send_event` for a transition of the table.
  unfoldable pub send_valid :
      Bool → Event → State → StatechartEngine State → StatechartEngine State × Sent State Event
  send_valid debug event table_target self =
      let from = spec.show_state self.current_state in
      let event_str = spec.show_event event in
      let target = spec.enter_initial_state table_target in
      let to = spec.show_state target in
      let traced = record self {
        tracer = call_tracer (on_transition from event_str to) self.tracer;
      } in
      let recorded = record_transition debug (valid_record from event_str to) traced in
      (record recorded { current_state = target }, returned (ok target))

  -- The branch of `send_event` for a pair that the table does not have.
  unfoldable pub send_invalid :
      Bool → Event → StatechartEngine State → StatechartEngine State × Sent State Event
  send_invalid debug event self =
      let from = spec.show_state self.current_state in
      let event_str = spec.show_event event in
      let valid_events = spec.valid_events_for self.current_state in
      let shown = map spec.show_event valid_events in
      let traced = record self {
        tracer = call_tracer (on_invalid_transition from event_str shown) self.tracer;
      } in
      let recorded = record_transition debug (invalid_record from event_str shown) traced in
      let failure : InvalidTransitionError State Event = record {
        current_state = recorded.current_state;
        event = event;
        valid_events = valid_events;
      } in
      (recorded, if debug then panicked failure else returned (err failure))

  unfoldable pub send_event :
      Bool → Event → StatechartEngine State → StatechartEngine State × Sent State Event
  send_event debug event self = elim (spec.transition self.current_state event) [
    | some target ↦ send_valid debug event target self
    | none ↦ send_invalid debug event self
  ]

  unfoldable pub is_in_final_state : StatechartEngine State → Bool
  is_in_final_state self = spec.is_final self.current_state

  unfoldable pub valid_events : StatechartEngine State → List Event
  valid_events self = spec.valid_events_for self.current_state

  -- In a release build the source returns an empty list.
  unfoldable pub recent_transitions : Bool → StatechartEngine State → List TransitionRecord
  recent_transitions debug self = if debug then self.recent_transitions else []

  unfoldable pub snapshot : Bool → Option Text → StatechartEngine State → StatechartSnapshot
  snapshot debug raw_scxml self = record {
    statechart_name = spec.name;
    current_state = spec.show_state self.current_state;
    scxml_hash = spec.scxml_hash;
    raw_scxml = raw_scxml;
    recent_transitions = recent_transitions debug self;
  }

  -- The engine after a sequence of calls of `send_event`. One that panics leaves the engine as it
  -- stands, so the calls go on as they do for a caller that catches the panic.
  unfoldable pub send_all : Bool → List Event → StatechartEngine State → StatechartEngine State
  send_all debug [] self = self
  send_all debug (event ∷ events) self = send_all debug events (send_event debug event self).0
