-- ===== src/Statechart/Validator/Reach.antt =====
-- The search of `compute_reachable` finds the states that the successors lead to, and ends.
use nivasa.Prelude.{
  Bool-cases, Option-cases, some-injective, length, Text, text_eq, text_eq_iff, text_eq_refl,
  get_text, mem_text, ℕ, zero, suc, ◌+◌, ◌<◌, ◌≡◌, refl, sym, ap, ◌∙◌, subst, ◌↔◌, inl, inr, true,
  ◌||◌, Option, some, List, [], ◌∷◌, arith,
}
use nivasa.Statechart.Document.{State, ScxmlDocument}
use nivasa.Statechart.Validator.{successors, visit_state, reach_loop, open_edges, compute_reachable}
use nivasa.Statechart.Validator.Successors.{
  Reaches, here, next, successors_iff, push_new-keeps, push_new-finds, push_new-only,
  length-push_new, open_edges-le, open_edges-lt,
}

module _ (doc : ScxmlDocument) where
  -- The successors of what has been found are found, or wait on the stack.
  abbrev IsClosed : List Text → List Text → Type 0
  IsClosed reachable queue =
      (id : Text) (state : State) (successor : Text)
      → mem_text id reachable ≡ true
      → get_text id doc.states ≡ some state
      → mem_text successor (successors state) ≡ true
      → (mem_text successor reachable || mem_text successor queue) ≡ true

  -- What has been found or waits is reachable.
  abbrev IsReached : Text → List Text → Type 0
  IsReached initial ids = (id : Text) → mem_text id ids ≡ true → Reaches doc initial id

  -- A loop with enough fuel ends, with a set that is closed.
  abbrev Found : Text → List Text → List Text → Option (List Text) → Type 0
  Found initial reachable queue result =
      (set : List Text) × (result ≡ some set)
      × IsReached initial set
      × IsClosed set []
      × ((id : Text) → (mem_text id reachable || mem_text id queue) ≡ true → mem_text id set ≡ true)

  -- What one round keeps, and that it comes nearer to the end.
  abbrev Round : Text → Text → List Text → List Text → List Text × List Text → Type 0
  Round initial id reachable queue (seen, rest) =
      IsReached initial seen
      × IsReached initial rest
      × IsClosed seen rest
      × ((i : Text)
          → (mem_text i reachable || mem_text i (id ∷ queue)) ≡ true
          → (mem_text i seen || mem_text i rest) ≡ true)
      × (length rest + open_edges doc.states seen
          < length (id ∷ queue) + open_edges doc.states reachable)

  absorb :
      (i id : Text) (reachable queue : List Text)
      → mem_text id reachable ≡ true
      → (mem_text i reachable || mem_text i (id ∷ queue)) ≡ true
      → (mem_text i reachable || mem_text i queue) ≡ true
  absorb i id reachable queue old h = elim (Bool-cases (text_eq id i)) [
    | inl e ↦ rw (ap (λ t. mem_text t reachable) (sym ((text_eq_iff id i).0 e)) ∙ old) refl
    | inr e ↦ rw e at h
  ]

  grown-IsReached :
      (initial id : Text) (reachable queue : List Text)
      → IsReached initial reachable
      → IsReached initial (id ∷ queue)
      → IsReached initial (id ∷ reachable)
  grown-IsReached initial id reachable queue sound waiting i h = elim (Bool-cases (text_eq id i)) [
    | inl e ↦ waiting i (rw e refl)
    | inr e ↦ sound i (rw e at h)
  ]

  -- The set may grow by a state whose successors are found or wait.
  grown-IsClosed :
      (id : Text) (reachable queue pushed : List Text)
      → IsClosed reachable (id ∷ queue)
      → ((i : Text) → mem_text i queue ≡ true → mem_text i pushed ≡ true)
      → ((state : State) (successor : Text)
          → get_text id doc.states ≡ some state
          → mem_text successor (successors state) ≡ true
          → (mem_text successor (id ∷ reachable) || mem_text successor pushed) ≡ true)
      → IsClosed (id ∷ reachable) pushed
  grown-IsClosed id reachable queue pushed closed keeps own i state successor h found m =
      elim (Bool-cases (text_eq id i)) [
        | inl e ↦
            own state successor (ap (λ t. get_text t doc.states) ((text_eq_iff id i).0 e) ∙ found) m
        | inr e ↦
            let before = closed i state successor (rw e at h) found m in
            elim (Bool-cases (mem_text successor queue)) [
              | inl q ↦ let kept = keeps successor q in ground arith
              | inr q ↦ ground arith
            ]
      ]

  visit_state_lem :
      (initial id : Text) (reachable queue : List Text)
      → IsReached initial reachable
      → IsReached initial (id ∷ queue)
      → IsClosed reachable (id ∷ queue)
      → Round initial id reachable queue (visit_state doc id reachable queue)
  unfolding visit_state
  visit_state_lem initial id reachable queue sound waiting closed =
      elim (Bool-cases (mem_text id reachable)) [
        | inl old ↦
            rw (old, visit_state)
              (
                sound,
                λ i h. waiting i (ground arith),
                λ i state successor h k m.
                    absorb successor id reachable queue old (closed i state successor h k m),
                λ i h. absorb i id reachable queue old h,
                omega arith,
              )
        | inr new ↦ elim (Option-cases (get_text id doc.states)) [
          | inl missing ↦
              rw (new, visit_state)
                (rw missing (
                  grown-IsReached initial id reachable queue sound waiting,
                  λ i h. waiting i (ground arith),
                  grown-IsClosed id reachable queue queue closed (λ i h. h)
                      (λ state successor found m. cc),
                  λ i h. ground arith,
                  omega (arith, open_edges-le doc.states id reachable),
                ))
          | inr (state, found) ↦
              rw (new, visit_state)
                (rw found (
                  grown-IsReached initial id reachable queue sound waiting,
                  λ i h. elim (Bool-cases (mem_text i (successors state))) [
                    | inl m ↦
                        next i (waiting id (rw (text_eq_refl id) refl)) found
                          ((successors_iff state i).0 m)
                    | inr m ↦
                        let only = push_new-only i (id ∷ reachable) (successors state) queue h in
                        waiting i (ground arith)
                  ],
                  grown-IsClosed id reachable queue _ closed
                      (λ i h. push_new-keeps i (id ∷ reachable) (successors state) queue h)
                      (λ s successor found_again m.
                        let same : s ≡ state = some-injective (sym found_again ∙ found) in
                        push_new-finds successor (id ∷ reachable) (successors state) queue
                          (subst (λ t. mem_text successor (successors t) ≡ true) same m)),
                  λ i h. elim (Bool-cases (mem_text i queue)) [
                    | inl q ↦
                        let kept = push_new-keeps i (id ∷ reachable) (successors state) queue q in
                        ground arith
                    | inr q ↦ ground arith
                  ],
                  omega (
                    arith,
                    open_edges-lt doc.states id reachable state found new,
                    length-push_new (id ∷ reachable) (successors state) queue,
                  ),
                ))
        ]
      ]

  reach_loop_lem :
      (initial : Text) (fuel : ℕ) (reachable queue : List Text)
      → IsReached initial reachable
      → IsReached initial queue
      → IsClosed reachable queue
      → length queue + open_edges doc.states reachable < fuel
      → Found initial reachable queue (reach_loop doc fuel reachable queue)
  unfolding reach_loop
  reach_loop_lem initial zero reachable queue sound waiting closed bound =
      absurd (omega (arith, bound))
  reach_loop_lem initial (suc fuel) reachable [] sound waiting closed bound =
      (reachable, refl, sound, closed, λ id h. ground arith)
  reach_loop_lem initial (suc fuel) reachable (id ∷ queue) sound waiting closed bound =
      let (seen_sound, rest_waits, shut, keeps, nearer) =
        visit_state_lem initial id reachable queue sound waiting closed in
      let (set, found, reached, all_closed, kept) =
        reach_loop_lem initial fuel (visit_state doc id reachable queue).0
          (visit_state doc id reachable queue).1 seen_sound rest_waits shut
          (omega (arith, bound, nearer)) in
      (set, found, reached, all_closed, λ i h. kept i (keeps i h))

  closed-Reaches :
      (initial id : Text) (set : List Text)
      → mem_text initial set ≡ true
      → IsClosed set []
      → Reaches doc initial id
      → mem_text id set ≡ true
  closed-Reaches initial id set start closed here = start
  closed-Reaches initial id set start closed
        (next {id = before} {state = state} successor reached found m) =
      let found_after =
        closed before state successor (closed-Reaches initial before set start closed reached) found
          ((successors_iff state successor).1 m) in
      ground arith

  -- `compute_reachable` ends, and a state is in its answer exactly when targets, children and initial
  -- children lead to it from the first state.
  pub compute_reachable_lem :
      (initial : Text)
      → (set : List Text) × (compute_reachable doc initial ≡ some set)
        × ((id : Text) → (mem_text id set ≡ true) ↔ Reaches doc initial id)
  unfolding compute_reachable
  compute_reachable_lem initial =
      let (set, found, reached, closed, kept) =
        reach_loop_lem initial (suc (suc (open_edges doc.states []))) [] (initial ∷ []) (λ id h. cc)
          (λ id h. only_initial id h) (λ id state successor h k m. cc) (omega arith) in
      (
        set,
        found,
        λ id. (
          reached id,
          closed-Reaches initial id set (kept initial (rw (text_eq_refl initial) refl)) closed,
        ),
      )
    where
      only_initial : (id : Text) → mem_text id (initial ∷ []) ≡ true → Reaches doc initial id
      only_initial id h =
          subst (Reaches doc initial) ((text_eq_iff initial id).0 (ground arith)) here
