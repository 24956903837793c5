-- ===== src/Examples/Documents.antt =====
-- Tests of the document and its validator, and instances of their theorems.
use nivasa.Prelude.{
  leb, All, Text, codes, split, trim_end_matches, mem_text, insert_by, sort_by, ℕ, ◌≡◌, refl, ◌↔◌,
  ◌⊎◌, true, false, ◌&&◌, Option, none, some, List, [], ◌∷◌, map,
}
use nivasa.Statechart.Document.{
  StateType, atomic, compound, final, external, Transition, State, ScxmlDocument, values,
  event_names, used_events, dedup, has_state,
}
use nivasa.Statechart.Document.Events.{
  Event, event_internal, matches_descriptor, all_zip_eq, IsPrefix, trim_end_wildcards,
  matches_descriptor_iff,
}
use nivasa.Statechart.Validator.{
  Std, ValidationRule, ValidationError, ValidationResult, is_valid, is_valid_event_name,
  compute_reachable, validate, start_state, successors, visit_state, push_new, reach_loop,
  check_initial, check_initial_of, check_target, check_targets, check_event, check_event_names,
  check_reachable, check_dead_end, check_deterministic, check_reachability_from, check_reachability,
  dead_end, invalid_target, invalid_event_name, unreachable, non_deterministic,
}
use nivasa.Statechart.Validator.Successors.{Reaches}
use nivasa.Statechart.Validator.Reach.{compute_reachable_lem}
use nivasa.Statechart.Validator.Verdict.{
  validate-is_valid_iff, InitialExists, TargetsExist, EventsNamed,
}
use nivasa.Statechart.Validator.Checks.{HasWayOut, AllDiffer, unconditional}
use nivasa.Statechart.Validator.Warnings.{validate-warnings_iff, AllFound}
use mathlib.Core.List.{flat_map}

-- Letters are the lower-case ones of ASCII, enough for the names below.
abbrev ascii : Std
ascii = record {
  is_alphanumeric = λ c. leb b'a' c && leb c b'z';
  debug_event = λ event. elim event [ none ↦ codes "None" | some t ↦ t ];
}

abbrev go_to : Text → Text → Transition
go_to event target = record {
  event = some event;
  cond = none;
  target = target ∷ [];
  transition_type = external;
}

abbrev simple_state : Text → StateType → List Transition → Text × State
simple_state id state_type transitions = (
  id,
  record {
    id = id;
    state_type = state_type;
    parent = none;
    children = [];
    initial = none;
    transitions = transitions;
    has_on_entry = false;
    has_on_exit = false;
    invoke = [];
  },
)

abbrev document : List (Text × State) → ScxmlDocument
document states = record {
  metadata = record {
    name = none;
    version = codes "1.0";
    initial = some (codes "idle");
    datamodel = none;
  };
  states = states;
  top_level_states = map (λ (item : Text × State). item.0) states;
  history_states = [];
  raw_source = [];
}

abbrev checkout : ScxmlDocument
checkout = document (
    simple_state (codes "idle") atomic
      (go_to (codes "pay") (codes "paid") ∷ go_to (codes "stop") (codes "done") ∷ [])
    ∷ simple_state (codes "paid") atomic (go_to (codes "pay") (codes "idle") ∷ [])
    ∷ simple_state (codes "done") final []
    ∷ [])

abbrev broken : ScxmlDocument
broken = document (
    simple_state (codes "idle") atomic
      (go_to (codes ".bad") (codes "gone") ∷ go_to (codes ".bad") (codes "idle") ∷ [])
    ∷ simple_state (codes "lost") atomic []
    ∷ [])

reaches_all :
    compute_reachable checkout (codes "idle")
    ≡ some (codes "paid" ∷ codes "done" ∷ codes "idle" ∷ [])
unfolding compute_reachable successors visit_state push_new reach_loop flat_map
reaches_all = refl

abbrev rules_of : Option ValidationResult → Option (List ValidationRule × List ValidationRule)
rules_of none = none
rules_of (some result) = some (
  map (λ (e : ValidationError). e.rule) result.errors,
  map (λ (e : ValidationError). e.rule) result.warnings,
)

no_complaint : rules_of (validate ascii checkout) ≡ some ([], [])
unfolding validate compute_reachable successors visit_state push_new reach_loop flat_map
    check_initial check_initial_of check_target check_targets check_event check_event_names
    check_reachable check_dead_end check_deterministic check_reachability_from check_reachability
    start_state has_state is_valid_event_name
no_complaint = refl

all_complaints :
    rules_of (validate ascii broken)
    ≡ some (
      invalid_target ∷ invalid_event_name ∷ invalid_event_name ∷ [],
      unreachable ∷ dead_end ∷ non_deterministic ∷ [],
    )
unfolding validate compute_reachable successors visit_state push_new reach_loop flat_map
    check_initial check_initial_of check_target check_targets check_event check_event_names
    check_reachable check_dead_end check_deterministic check_reachability_from check_reachability
    start_state has_state is_valid_event_name
all_complaints = refl

-- The search warns of no final state: "done" is not reached.
abbrev unreached_final : ScxmlDocument
unreached_final = document (
    simple_state (codes "idle") atomic (go_to (codes "pay") (codes "idle") ∷ [])
    ∷ simple_state (codes "done") final []
    ∷ [])

unreached_final_passes : rules_of (validate ascii unreached_final) ≡ some ([], [])
unfolding validate compute_reachable successors visit_state push_new reach_loop flat_map
    check_initial check_initial_of check_target check_targets check_event check_event_names
    check_reachable check_dead_end check_deterministic check_reachability_from check_reachability
    start_state has_state is_valid_event_name
unreached_final_passes = refl

-- Two transitions for the same event under the same condition are not taken for ambiguous.
abbrev same_condition : ScxmlDocument
same_condition =
    let paid = record (go_to (codes "pay") (codes "idle")) { cond = some (codes "ready") } in
    document (simple_state (codes "idle") atomic (paid ∷ paid ∷ []) ∷ [])

same_condition_passes : rules_of (validate ascii same_condition) ≡ some ([], [])
unfolding validate compute_reachable successors visit_state push_new reach_loop flat_map
    check_initial check_initial_of check_target check_targets check_event check_event_names
    check_reachable check_dead_end check_deterministic check_reachability_from check_reachability
    start_state has_state is_valid_event_name
same_condition_passes = refl

-- A compound state needs no transition of its own.
abbrev nested : ScxmlDocument
nested =
    let outer = record (simple_state (codes "idle") atomic []).1 {
      state_type = compound;
      children = codes "inner" ∷ [];
    } in
    document ((codes "idle", outer) ∷ [])

nested_passes : rules_of (validate ascii nested) ≡ some ([], [])
unfolding validate compute_reachable successors visit_state push_new reach_loop flat_map
    check_initial check_initial_of check_target check_targets check_event check_event_names
    check_reachable check_dead_end check_deterministic check_reachability_from check_reachability
    start_state has_state is_valid_event_name
nested_passes = refl

sorted_events : event_names checkout ≡ codes "pay" ∷ codes "stop" ∷ []
unfolding event_names used_events dedup flat_map sort_by insert_by
sorted_events = refl

prefix_matches :
    matches_descriptor (event_internal {Value = ℕ} (codes "error.send.failed")) (codes "error.*")
    ≡ true
unfolding matches_descriptor all_zip_eq event_internal
prefix_matches = refl

part_of_a_token :
    matches_descriptor (event_internal {Value = ℕ} (codes "error.send")) (codes "err") ≡ false
unfolding matches_descriptor all_zip_eq event_internal
part_of_a_token = refl

abbrev sent : Event ℕ
sent = record (event_internal {Value = ℕ} []) { name = codes "error.send" }

matches_descriptor_iff_example : (matches_descriptor sent (codes "error.*") ≡ true) ↔ (
    (codes "error.*" ≡ codes "*")
    ⊎ IsPrefix
        (split b'.' (trim_end_matches b'.' (trim_end_wildcards (codes "error.*"))))
        (split b'.' (codes "error.send")))
matches_descriptor_iff_example = matches_descriptor_iff sent (codes "error.*")

compute_reachable_lem_example :
    (set : List Text) × (compute_reachable checkout (codes "idle") ≡ some set)
    × ((id : Text) → (mem_text id set ≡ true) ↔ Reaches checkout (codes "idle") id)
compute_reachable_lem_example = compute_reachable_lem checkout (codes "idle")

validate-is_valid_iff_example :
    (result : ValidationResult) × (validate ascii checkout ≡ some result)
    × ((is_valid result ≡ true) ↔ (
        InitialExists checkout (some (codes "idle"))
        × All (TargetsExist checkout) (values checkout)
        × All (EventsNamed ascii) (values checkout)))
validate-is_valid_iff_example = validate-is_valid_iff ascii checkout

abbrev clean : ValidationResult
clean = record { errors = []; warnings = [] }

checked : validate ascii checkout ≡ some clean
unfolding validate compute_reachable successors visit_state push_new reach_loop flat_map
    check_initial check_initial_of check_target check_targets check_event check_event_names
    check_reachable check_dead_end check_deterministic check_reachability_from check_reachability
    start_state has_state is_valid_event_name
checked = refl

validate-warnings_iff_example : (clean.warnings ≡ []) ↔ (
    AllFound checkout
    × All HasWayOut (values checkout)
    × All (λ (s : State). AllDiffer (unconditional s.transitions)) (values checkout))
validate-warnings_iff_example = validate-warnings_iff ascii checkout clean checked
