-- ===== src/Statechart/Document.antt =====
-- The SCXML document of nivasa-statechart/src/types.rs and src/parser.rs, and its queries.
pub mod Events
use nivasa.Prelude.{
  ltb, leb, ◌==◌, if◌then◌else◌, ==_iff, ==_refl, Bool-cases, Option-cases, some-injective, is_some,
  is_none, length, is_empty, first, last, pop, pop-snoc, get_elem?, any, all, find, keep, replicate,
  length-append, All, All-append, All-map, Result, ◌>>=◌, map_err, Result-cases, >>=-eq-ok,
  ok-injective, ok, err, Text, codes, text_eq, text_eq_iff, text_eq_refl, strip_prefix, ends_with,
  starts_with, upper_char, to_ascii_uppercase, push_head, split, join, join_with, Lacks,
  split_whole, split-append, push_head-All, split-Lacks, keep-nonempty, is_whitespace, drop_while,
  drop_end, trim_start_matches, trim_end_matches, trim_matches, trim, ends_without, begins_without,
  drop_while_id, drop_end_id, last-drop_end, first-drop_while, last-append, trim_id, cmp_text,
  get_text, put_text, get_text-put_text, get_text-put_text_other, join-split, strip_text,
  strip_text-append, strip_text-eq-some, mem_text, mem_text-append, Below, insert_by, sort_by,
  IsSortedBy, insert_by-perm, sort_by-perm, IsPreorder, sort_by-IsSortedBy, mem, insert_set,
  remove_set, remove_set_fresh, remove_set_head, IsDistinct, lookup, insert_map, keys, mem-keys,
  lookup-insert_map, remove_map, adjust_map, keys-adjust_map, IsDistinct-remove_map,
  remove_map-adjust_map, count_outside, count_outside-le, count_outside-lt, Run, and_run, done,
  fail, and_run-eq-done, and_run-ne-none, ℕ, zero, suc, ◌+◌, ◌-◌, ◌*◌, ◌≤◌, ◌<◌, compare, Ordering,
  ◌≡◌, refl, sym, ap, ◌∙◌, subst, ◌≢◌, ◌↔◌, ◌⊎◌, inl, inr, Bool, true, false, ◌&&◌, ◌||◌, not,
  Option, none, some, List, [], ◌∷◌, ◌++◌, map, arith,
}
use mathlib.Core.List.{flat_map}

pub data StateType : Type 0 where
  atomic compound parallel final : StateType

pub data TransitionType : Type 0 where
  internal external : TransitionType

pub record Transition : Type 0 where
  pub event : Option Text
  pub cond : Option Text
  pub target : List Text
  pub transition_type : TransitionType

pub record Invoke : Type 0 where
  pub invoke_type : Option Text
  pub id : Option Text
  pub src : Option Text
  pub autoforward : Bool

pub record State : Type 0 where
  pub id : Text
  pub state_type : StateType
  pub parent : Option Text
  pub children : List Text
  pub initial : Option Text
  pub transitions : List Transition
  pub has_on_entry : Bool
  pub has_on_exit : Bool
  pub invoke : List Invoke

pub data HistoryType : Type 0 where
  shallow deep : HistoryType

pub record HistoryState : Type 0 where
  pub id : Text
  pub history_type : HistoryType
  pub parent : Text

pub record ScxmlMetadata : Type 0 where
  pub name : Option Text
  pub version : Text
  pub initial : Option Text
  pub datamodel : Option Text

-- The states in the order in which the hash map iterates over them.
pub record ScxmlDocument : Type 0 where
  pub metadata : ScxmlMetadata
  pub states : List (Text × State)
  pub top_level_states : List Text
  pub history_states : List HistoryState
  pub raw_source : Text

-- `states.values()`.
abbrev pub values : ScxmlDocument → List State
values self = map (λ (item : Text × State). item.1) self.states

abbrev pub state_ids : ScxmlDocument → List Text
state_ids self = map (λ (item : Text × State). item.0) self.states

unfoldable pub has_state : ScxmlDocument → Text → Bool
has_state self id = is_some (get_text id self.states)

abbrev pub listed : Option Text → List Text
listed none = []
listed (some t) = t ∷ []

-- `Vec::dedup`: of neighbours that are equal, the first stays.
unfoldable pub dedup : List Text → List Text
dedup [] = []
dedup (t ∷ []) = t ∷ []
dedup (t ∷ u ∷ ts) = let rest = dedup (u ∷ ts) in if text_eq t u then rest else t ∷ rest

unfoldable pub used_events : ScxmlDocument → List Text
used_events self =
    flat_map (λ (t : Transition). listed t.event)
      (flat_map (λ (s : State). s.transitions) (values self))

unfoldable pub event_names : ScxmlDocument → List Text
event_names self = dedup (sort_by cmp_text (used_events self))
