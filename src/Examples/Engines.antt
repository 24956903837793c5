-- ===== src/Examples/Engines.antt =====
-- Tests and witnesses for the statechart engine: a chart of three states, 0 to 2, that the events 0
-- and 1 lead through.
use nivasa.Prelude.{
  ◌==◌, replicate, ok, err, codes, ℕ, zero, suc, ◌≡◌, refl, ◌⊎◌, true, false, Option, none, some,
  List, [], ◌∷◌,
}
use nivasa.Statechart.Engine.{
  StatechartSpec, new, with_tracer, send_event, send_all, recent_transitions, returned, panicked,
  send_valid, send_invalid, record_transition,
}
use nivasa.Statechart.Engine.Runs.{Reachable, begin, rejection, send_event_lem, send_all-Reachable}
use nivasa.Statechart.Engine.History.{
  latest, attempts, attempt, traced_attempt, recent_transitions_lem, with_tracer_lem,
}

abbrev table : ℕ → ℕ → Option ℕ
table zero zero = some 1
table (suc zero) (suc zero) = some 2
table _ _ = none

abbrev valid_in : ℕ → List ℕ
valid_in zero = 0 ∷ []
valid_in (suc zero) = 1 ∷ []
valid_in _ = []

abbrev chart : StatechartSpec ℕ ℕ
chart = record {
  transition = table;
  valid_events_for = valid_in;
  enter_initial_state = λ state. state;
  is_final = λ state. state == 2;
  name = codes "test";
  scxml_hash = codes "test_hash";
  show_state = λ state. state ∷ [];
  show_event = λ event. event ∷ [];
}

reaches_done : (send_all chart true (0 ∷ 1 ∷ []) (new chart 0)).current_state ≡ 2
unfolding send_all send_event send_valid send_invalid record_transition new
reaches_done = refl

rejects_finish :
    (send_event chart false 1 (new chart 0)).1
    ≡ returned (err (record { current_state = 0; event = 1; valid_events = 0 ∷ [] }))
unfolding send_all send_event send_valid send_invalid record_transition new
rejects_finish = refl

send_event_lem_example :
    ((target : ℕ) × (table 0 1 ≡ some target)
      × ((send_event chart true 1 (new chart 0)).0.current_state ≡ target)
      × ((send_event chart true 1 (new chart 0)).1 ≡ returned (ok target)))
    ⊎ ((table 0 1 ≡ none)
        × ((send_event chart true 1 (new chart 0)).0.current_state ≡ 0)
        × ((send_event chart true 1 (new chart 0)).1 ≡ panicked (rejection chart 0 1)))
unfolding new
send_event_lem_example = send_event_lem chart true 1 (new chart 0)

send_all-Reachable_example :
    Reachable chart 0 (send_all chart false (0 ∷ 0 ∷ 1 ∷ []) (new chart 0)).current_state
unfolding new
send_all-Reachable_example = send_all-Reachable chart false 0 (0 ∷ 0 ∷ 1 ∷ []) (new chart 0) begin

recent_transitions_lem_example :
    recent_transitions chart true (send_all chart true (replicate 70 1) (new chart 0))
    ≡ latest (attempts chart (attempt chart) 0 (replicate 70 1))
recent_transitions_lem_example = recent_transitions_lem chart 0 (replicate 70 1)

with_tracer_lem_example :
    (send_all chart false (0 ∷ 0 ∷ 1 ∷ []) (with_tracer chart 0 [])).tracer
    ≡ some (attempts chart (traced_attempt chart) 0 (0 ∷ 0 ∷ 1 ∷ []))
with_tracer_lem_example = with_tracer_lem chart false 0 (0 ∷ 0 ∷ 1 ∷ [])
