-- ===== src/Statechart/Validator/Successors.antt =====
-- Where a state leads to, and what `push_new` does to the stack.
use nivasa.Prelude.{
  Bool-cases, some-injective, length, any, Text, text_eq, text_eq_iff, get_text, mem_text,
  mem_text-append, ◌+◌, ◌≤◌, ◌≡◌, refl, sym, ap, ◌∙◌, subst, ◌↔◌, ◌⊎◌, inl, inr, Bool, true, false,
  ◌||◌, Option, none, some, List, [], ◌∷◌, arith,
}
use mathlib.Core.List.{flat_map}
use mathlib.Core.Path.{ap₂}
use nivasa.Statechart.Document.{Transition, State, ScxmlDocument, listed}
use nivasa.Statechart.Validator.{successors, push_new, open_edges}

-- A target of a transition, a child, or the initial child.
abbrev pub LeadsTo : State → Text → Type 0
LeadsTo state id =
    (any (λ (t : Transition). mem_text id t.target) state.transitions ≡ true)
    ⊎ ((mem_text id state.children ≡ true) ⊎ (state.initial ≡ some id))

-- The states to which targets, children and initial children lead from the first one.
pub data Reaches (doc : ScxmlDocument) (initial : Text) : Text → Type 0 where
  here : Reaches doc initial initial
  next :
      {id : Text} {state : State} (successor : Text)
      → Reaches doc initial id
      → get_text id doc.states ≡ some state
      → LeadsTo state successor
      → Reaches doc initial successor

targets_lem :
    (id : Text) (transitions : List Transition)
    → mem_text id (flat_map (λ (t : Transition). t.target) transitions)
      ≡ any (λ (t : Transition). mem_text id t.target) transitions
unfolding flat_map
targets_lem id [] = refl
targets_lem id (t ∷ ts) =
    mem_text-append id t.target (flat_map (λ (t : Transition). t.target) ts)
    ∙ ap (λ b. mem_text id t.target || b) (targets_lem id ts)

listed_iff :
    (id : Text) (initial : Option Text)
    → (mem_text id (listed initial) ≡ true) ↔ (initial ≡ some id)
listed_iff id none = (λ e. cc, λ e. cc)
listed_iff id (some t) =
    let same = text_eq_iff t id in
    (λ e. ap (λ x. some x) (same.0 (ground arith)), λ e. rw (same.1 (some-injective e)) refl)

or_iff : {P Q : Type 0} (a b : Bool) → (a ≡ true) ↔ P → (b ≡ true) ↔ Q → ((a || b) ≡ true) ↔ (P ⊎ Q)
or_iff true b p q = (λ e. inl (p.0 refl), λ h. refl)
or_iff false b p q = (λ e. inr (q.0 e), λ h. elim h [ inl k ↦ cc (p.1 k) | inr k ↦ q.1 k ])

pub successors_iff :
    (state : State) (id : Text) → (mem_text id (successors state) ≡ true) ↔ LeadsTo state id
unfolding successors
successors_iff state id =
    subst (λ b. (b ≡ true) ↔ LeadsTo state id)
      (sym (
        mem_text-append id (flat_map (λ (t : Transition). t.target) state.transitions) _
        ∙ ap₂ (λ a b. a || b) (targets_lem id state.transitions)
            (mem_text-append id state.children (listed state.initial))))
      (or_iff _ _ (λ e. e, λ e. e) (or_iff _ _ (λ e. e, λ e. e) (listed_iff id state.initial)))

pub push_new-keeps :
    (id : Text) (reachable ids queue : List Text)
    → mem_text id queue ≡ true
    → mem_text id (push_new reachable ids queue) ≡ true
unfolding push_new
push_new-keeps id reachable [] queue h = h
push_new-keeps id reachable (i ∷ ids) queue h = push_new-keeps id reachable ids _ (ground arith)

pub push_new-finds :
    (id : Text) (reachable ids queue : List Text)
    → mem_text id ids ≡ true
    → (mem_text id reachable || mem_text id (push_new reachable ids queue)) ≡ true
unfolding push_new
push_new-finds id reachable [] queue h = cc
push_new-finds id reachable (i ∷ ids) queue h = elim (Bool-cases (text_eq i id)) [
  | inl e ↦ elim (Bool-cases (mem_text i reachable)) [
    | inl old ↦ rw (ap (λ t. mem_text t reachable) (sym ((text_eq_iff i id).0 e)) ∙ old) refl
    | inr new ↦
        let pushed = push_new-keeps id reachable ids (i ∷ queue) (rw e refl) in
        rw new (ground arith)
  ]
  | inr e ↦ push_new-finds id reachable ids _ (ground arith)
]

pub push_new-only :
    (id : Text) (reachable ids queue : List Text)
    → mem_text id (push_new reachable ids queue) ≡ true
    → (mem_text id ids || mem_text id queue) ≡ true
unfolding push_new
push_new-only id reachable [] queue h = h
push_new-only id reachable (i ∷ ids) queue h = elim (Bool-cases (mem_text i reachable)) [
  | inl old ↦ let found = push_new-only id reachable ids queue (rw old at h) in ground arith
  | inr new ↦ let found = push_new-only id reachable ids (i ∷ queue) (rw new at h) in ground arith
]

pub length-push_new :
    (reachable ids queue : List Text)
    → length (push_new reachable ids queue) ≤ length ids + length queue
unfolding push_new
length-push_new reachable [] queue = omega arith
length-push_new reachable (i ∷ ids) queue =
    ground (arith, length-push_new reachable ids queue, length-push_new reachable ids (i ∷ queue))

pub open_edges-le :
    (states : List (Text × State)) (id : Text) (reachable : List Text)
    → open_edges states (id ∷ reachable) ≤ open_edges states reachable
open_edges-le [] id reachable = omega arith
open_edges-le ((i, state) ∷ states) id reachable = ground (arith, open_edges-le states id reachable)

pub open_edges-lt :
    (states : List (Text × State)) (id : Text) (reachable : List Text) (state : State)
    → get_text id states ≡ some state
    → mem_text id reachable ≡ false
    → open_edges states (id ∷ reachable) + length (successors state) ≤ open_edges states reachable
open_edges-lt [] id reachable state found new = cc
open_edges-lt ((i, s) ∷ states) id reachable state found new = elim (Bool-cases (text_eq i id)) [
  | inl e ↦
      let same : i ≡ id = (text_eq_iff i id).0 e in
      let fresh : mem_text i reachable ≡ false = ap (λ t. mem_text t reachable) same ∙ new in
      let own : s ≡ state = some-injective (rw e at found) in
      let known : text_eq id i ≡ true = (text_eq_iff id i).1 (sym same) in
      let size : length (successors s) ≡ length (successors state) =
        ap (λ t. length (successors t)) own in
      rw (fresh, known) (omega (arith, open_edges-le states id reachable))
  | inr e ↦ let rest = open_edges-lt states id reachable state (rw e at found) new in ground arith
]
