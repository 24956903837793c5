-- ===== src/Statechart/Validator.antt =====
-- `validate` of nivasa-statechart/src/validator.rs. The worklist of `compute_reachable` runs on fuel;
-- `none` means that the fuel is used up, which Statechart.Validator.Reach excludes.
pub mod Successors
pub mod Reach
pub mod Verdict
pub mod Checks
pub mod Warnings
use nivasa.Prelude.{
  first_some, ltb, leb, ◌==◌, if◌then◌else◌, ==_iff, ==_refl, Bool-cases, Option-cases,
  some-injective, is_some, is_none, length, is_empty, first, last, pop, pop-snoc, get_elem?, any,
  all, find, keep, replicate, length-append, All, All-append, All-map, Result, ◌>>=◌, map_err,
  Result-cases, >>=-eq-ok, ok-injective, ok, err, Text, codes, text_eq, text_eq_iff, text_eq_refl,
  strip_prefix, ends_with, starts_with, upper_char, to_ascii_uppercase, push_head, split, join,
  join_with, Lacks, split_whole, split-append, push_head-All, split-Lacks, keep-nonempty,
  is_whitespace, drop_while, drop_end, trim_start_matches, trim_end_matches, trim_matches, trim,
  ends_without, begins_without, drop_while_id, drop_end_id, last-drop_end, first-drop_while,
  last-append, trim_id, cmp_text, get_text, put_text, get_text-put_text, get_text-put_text_other,
  join-split, strip_text, strip_text-append, strip_text-eq-some, mem_text, mem_text-append, Below,
  insert_by, sort_by, IsSortedBy, insert_by-perm, sort_by-perm, IsPreorder, sort_by-IsSortedBy, mem,
  insert_set, remove_set, remove_set_fresh, remove_set_head, IsDistinct, lookup, insert_map, keys,
  mem-keys, lookup-insert_map, remove_map, adjust_map, keys-adjust_map, IsDistinct-remove_map,
  remove_map-adjust_map, count_outside, count_outside-le, count_outside-lt, Run, and_run, done,
  fail, and_run-eq-done, and_run-ne-none, ℕ, zero, suc, ◌+◌, ◌-◌, ◌*◌, ◌≤◌, ◌<◌, compare, Ordering,
  ◌≡◌, refl, sym, ap, ◌∙◌, subst, ◌≢◌, ◌↔◌, ◌⊎◌, inl, inr, Bool, true, false, ◌&&◌, ◌||◌, not,
  Option, none, some, List, [], ◌∷◌, ◌++◌, map, arith,
}
use mathlib.Core.List.{flat_map}
use mathlib.Core.Option
use nivasa.Statechart.Document.{
  StateType, final, parallel, Transition, State, ScxmlDocument, values, has_state, listed,
}
use nivasa.Statechart.Document.Events.{trim_end_wildcards}

-- What `std` does with characters and with `{:?}`.
pub record Std : Type 0 where
  pub is_alphanumeric : ℕ → Bool
  pub debug_event : Option Text → Text

pub data ValidationRule : Type 0 where
  unreachable dead_end non_deterministic malformed_compound invalid_target missing_initial
        invalid_event_name :
      ValidationRule

pub record ValidationError : Type 0 where
  pub rule : ValidationRule
  pub message : Text
  pub state_id : Option Text

pub record ValidationResult : Type 0 where
  pub errors : List ValidationError
  pub warnings : List ValidationError

unfoldable pub is_valid : ValidationResult → Bool
is_valid self = is_empty self.errors

abbrev pub is_final : StateType → Bool
is_final final = true
is_final _ = false

abbrev pub is_parallel : StateType → Bool
is_parallel parallel = true
is_parallel _ = false

-- A state's targets, children and initial child, in the order in which they are pushed.
unfoldable pub successors : State → List Text
successors state =
    flat_map (λ (t : Transition). t.target) state.transitions
    ++ (state.children ++ listed state.initial)

-- The loops that push what is not in the set yet. The top of the stack is the head.
unfoldable pub push_new : List Text → List Text → List Text → List Text
push_new reachable [] queue = queue
push_new reachable (id ∷ ids) queue =
    push_new reachable ids (if mem_text id reachable then queue else id ∷ queue)

module _ (doc : ScxmlDocument) where
  -- A round of the loop: the set and the stack after the top has been popped.
  unfoldable pub visit_state : Text → List Text → List Text → List Text × List Text
  visit_state id reachable queue =
      let grown = id ∷ reachable in
      let pushed : List Text = elim (get_text id doc.states) [
        | none ↦ queue
        | some state ↦ push_new grown (successors state) queue
      ] in
      if mem_text id reachable then (reachable, queue) else (grown, pushed)

  unfoldable pub reach_loop : ℕ → List Text → List Text → Option (List Text)
  reach_loop zero reachable queue = none
  reach_loop (suc fuel) reachable [] = some reachable
  reach_loop (suc fuel) reachable (id ∷ queue) =
      let (seen, rest) = visit_state id reachable queue in reach_loop fuel seen rest

-- The successors of the states that are not in the set.
abbrev pub open_edges : List (Text × State) → List Text → ℕ
open_edges [] reachable = 0
open_edges ((id, state) ∷ states) reachable =
    (if mem_text id reachable then 0 else length (successors state)) + open_edges states reachable

unfoldable pub compute_reachable : ScxmlDocument → Text → Option (List Text)
compute_reachable doc initial =
    reach_loop doc (suc (suc (open_edges doc.states []))) [] (initial ∷ [])

abbrev pub event_eq : Option Text → Option Text → Bool
event_eq none none = true
event_eq (some s) (some t) = text_eq s t
event_eq _ _ = false

abbrev pub mem_event : Option Text → List (Option Text) → Bool
mem_event event seen = any (λ other. event_eq other event) seen

abbrev pub insert_event : Option Text → List (Option Text) → List (Option Text)
insert_event event seen = if mem_event event seen then seen else event ∷ seen

abbrev pub quoted : Text → Text
quoted t = b'\'' ∷ (t ++ (b'\'' ∷ []))

-- Both branches of the check for the initial state.
unfoldable pub check_initial_of : ScxmlDocument → Option Text → List ValidationError
check_initial_of doc none =
    if is_empty doc.top_level_states
    then record {
      rule = missing_initial;
      message = codes "No initial state specified and no top-level states found";
      state_id = none;
    }
      ∷ []
    else []
check_initial_of doc (some initial) =
    if has_state doc initial
    then []
    else record {
      rule = missing_initial;
      message =
          codes "Initial state " ++ (quoted initial ++ codes " does not exist in the document");
      state_id = none;
    }
      ∷ []

unfoldable pub check_initial : ScxmlDocument → List ValidationError
check_initial doc = check_initial_of doc doc.metadata.initial

unfoldable pub check_target : ScxmlDocument → State → Text → List ValidationError
check_target doc state target =
    if has_state doc target
    then []
    else record {
      rule = invalid_target;
      message =
          codes "Transition in state "
          ++ (quoted state.id ++ (codes " targets non-existent state " ++ quoted target));
      state_id = some state.id;
    }
      ∷ []

unfoldable pub check_targets : ScxmlDocument → List ValidationError
check_targets doc =
    flat_map
      (λ (state : State).
        flat_map (λ (transition : Transition). flat_map (check_target doc state) transition.target)
          state.transitions)
      (values doc)

abbrev pub holds_parent : List Text → Option Text → Bool
holds_parent reachable none = false
holds_parent reachable (some parent) = mem_text parent reachable

unfoldable pub check_reachable : List Text → State → List ValidationError
check_reachable reachable state =
    if mem_text state.id reachable
      || is_final state.state_type
      || holds_parent reachable state.parent
    then []
    else record {
      rule = unreachable;
      message = codes "State " ++ (quoted state.id ++ codes " is not reachable from initial state");
      state_id = some state.id;
    }
      ∷ []

unfoldable pub check_dead_end : State → List ValidationError
check_dead_end state =
    if is_final state.state_type
      || is_parallel state.state_type
      || not (is_empty state.transitions)
      || not (is_empty state.children)
    then []
    else record {
      rule = dead_end;
      message =
          codes "Atomic state "
          ++ (quoted state.id ++ codes " has no outgoing transitions and is not a final state");
      state_id = some state.id;
    }
      ∷ []

-- The state from which the search starts.
unfoldable pub start_state : ScxmlDocument → Option Text
start_state doc = first_some doc.metadata.initial (first doc.top_level_states)

-- The warnings of the search from the given state.
unfoldable pub check_reachability_from : ScxmlDocument → Option Text → Option (List ValidationError)
check_reachability_from doc none = some []
check_reachability_from doc (some initial) =
    Option.map (λ reachable. flat_map (check_reachable reachable) (values doc))
      (compute_reachable doc initial)

unfoldable pub check_reachability : ScxmlDocument → Option (List ValidationError)
check_reachability doc = check_reachability_from doc (start_state doc)

module _ (chars : Std) where
  unfoldable pub is_valid_event_name : Text → Bool
  is_valid_event_name name =
      let trimmed = trim_end_wildcards name in
      let valid_token = λ (token : Text).
        not (is_empty token) && all (λ c. chars.is_alphanumeric c || c == b'_') token in
      not (is_empty trimmed) && all valid_token (split b'.' trimmed)

  unfoldable pub check_event : State → Option Text → List ValidationError
  check_event state none = []
  check_event state (some event) =
      if text_eq event (codes "*") || is_valid_event_name event
      then []
      else record {
        rule = invalid_event_name;
        message =
            codes "Event "
            ++ (quoted event
                ++ (codes " in state "
                    ++ (quoted state.id ++ codes " is not a valid dot-separated event name")));
        state_id = some state.id;
      }
        ∷ []

  unfoldable pub check_event_names : ScxmlDocument → List ValidationError
  check_event_names doc =
      flat_map
        (λ (state : State).
          flat_map (λ (t : Transition). check_event state t.event) state.transitions)
        (values doc)

  -- The loop over the transitions of a state, with the events seen so far.
  unfoldable pub check_deterministic :
      State → List (Option Text) → List Transition → List ValidationError
  check_deterministic state seen [] = []
  check_deterministic state seen (transition ∷ transitions) =
      let inserted = if is_some transition.cond then seen else insert_event transition.event seen in
      let rest = check_deterministic state inserted transitions in
      let warning : ValidationError = record {
        rule = non_deterministic;
        message =
            codes "State "
            ++ (quoted state.id
                ++ (codes " has multiple transitions for event '"
                    ++ (chars.debug_event transition.event ++ codes "' without conditions")));
        state_id = some state.id;
      } in
      if not (is_some transition.cond) && mem_event transition.event seen
      then warning ∷ rest
      else rest

  unfoldable pub validate : ScxmlDocument → Option ValidationResult
  validate doc = elim (check_reachability doc) [
    | none ↦ none
    | some unreachable_states ↦ some (record {
      errors = check_initial doc ++ (check_targets doc ++ check_event_names doc);
      warnings =
          unreachable_states
          ++ (flat_map check_dead_end (values doc)
              ++ flat_map (λ (state : State). check_deterministic state [] state.transitions)
                  (values doc));
    })
  ]
