-- ===== src/Routing/Index/Candidates.antt =====
-- The candidates of the index are the routes that a path with the given first segment can match, in
-- the order of the table.
use nivasa.Prelude.{
  if◌then◌else◌, Bool-cases, is_none, All, Text, text_eq, text_eq_iff, ℕ, suc, ◌≤◌, ◌<◌, ◌≡◌, refl,
  sym, ap, ◌∙◌, inl, inr, Bool, true, false, ◌||◌, Option, none, some, List, [], ◌∷◌, ◌++◌, arith,
}
use mathlib.Core.List.{append-nil, append_assoc}
use nivasa.Routing.Path.{first_path_segment}
use nivasa.Routing.Index.{
  RouteFirstSegmentIndex, empty_index, get_indices, push_index, add_route, rebuild_from, rebuild,
  merge_sorted_indices, indices_with_fallback, candidate_indices,
}

-- The positions, counted from `index`, of the elements that pass the test.
unfoldable pub indices_of {ℓ} : {A : Type ℓ} → (A → Bool) → ℕ → List A → List ℕ
indices_of p index [] = []
indices_of p index (x ∷ xs) =
    let rest = indices_of p (suc index) xs in if p x then index ∷ rest else rest

abbrev pub has_segment : Text → Option Text → Bool
has_segment segment none = false
has_segment segment (some key) = text_eq key segment

-- A route is a candidate if it starts with no literal, or with the path's first segment.
abbrev pub is_candidate : Option Text → Option Text → Bool
is_candidate path_segment none = true
is_candidate none (some key) = false
is_candidate (some segment) (some key) = text_eq key segment

abbrev extend : Option (List ℕ) → List ℕ → Option (List ℕ)
extend none [] = none
extend none (i ∷ is') = some (i ∷ is')
extend (some old) new = some (old ++ new)

extend-nil : (o : Option (List ℕ)) → extend o [] ≡ o
extend-nil none = refl
extend-nil (some old) = ap some (append-nil old)

extend-extend :
    (o : Option (List ℕ)) (i : ℕ) (rest : List ℕ)
    → extend (extend o (i ∷ [])) rest ≡ extend o (i ∷ rest)
extend-extend none i rest = refl
extend-extend (some old) i rest = ap some (append_assoc old (i ∷ []) rest)

get_indices-push_index :
    (segment key : Text) (index : ℕ) (anchored : List (Text × List ℕ))
    → get_indices segment (push_index key index anchored) ≡ (
        if text_eq key segment
        then extend (get_indices segment anchored) (index ∷ [])
        else get_indices segment anchored)
unfolding get_indices push_index
get_indices-push_index segment key index [] = ground arith
get_indices-push_index segment key index ((k, is') ∷ rest) = ground (
  arith,
  get_indices-push_index segment key index rest,
  text_eq_iff k key,
  text_eq_iff k segment,
  text_eq_iff key segment,
)

module _ {ℓ} {A : Type ℓ} (first_segment : A → Option Text) where
  abbrev is_fallback : A → Bool
  is_fallback route = is_none (first_segment route)

  fallback-rebuild_from :
      (index : ℕ) (routes : List A) (built : RouteFirstSegmentIndex)
      → (rebuild_from first_segment index routes built).fallback
        ≡ built.fallback ++ indices_of is_fallback index routes
  unfolding rebuild_from indices_of add_route
  fallback-rebuild_from index [] built = sym (append-nil built.fallback)
  fallback-rebuild_from index (route ∷ routes) built =
      fallback-rebuild_from (suc index) routes (add_route (first_segment route) index built)
      ∙ go (first_segment route)
    where
      go :
          (o : Option Text)
          → (add_route o index built).fallback ++ indices_of is_fallback (suc index) routes
            ≡ built.fallback
              ++ (if is_none o
                  then index ∷ indices_of is_fallback (suc index) routes
                  else indices_of is_fallback (suc index) routes)
      go none = append_assoc built.fallback (index ∷ []) _
      go (some key) = refl

  get_indices-rebuild_from :
      (segment : Text) (index : ℕ) (routes : List A) (built : RouteFirstSegmentIndex)
      → get_indices segment (rebuild_from first_segment index routes built).anchored
        ≡ extend
            (get_indices segment built.anchored)
            (indices_of (λ route. has_segment segment (first_segment route)) index routes)
  unfolding rebuild_from indices_of add_route
  get_indices-rebuild_from segment index [] built =
      sym (extend-nil (get_indices segment built.anchored))
  get_indices-rebuild_from segment index (route ∷ routes) built =
      get_indices-rebuild_from segment (suc index) routes
        (add_route (first_segment route) index built)
      ∙ go (first_segment route)
    where
      rest : List ℕ
      rest = indices_of (λ r. has_segment segment (first_segment r)) (suc index) routes

      go :
          (o : Option Text)
          → extend (get_indices segment (add_route o index built).anchored) rest
            ≡ extend
                (get_indices segment built.anchored)
                (if has_segment segment o then index ∷ rest else rest)
      go none = refl
      go (some key) = elim (Bool-cases (text_eq key segment)) [
        | inl same ↦
            rw (get_indices-push_index segment key index built.anchored, same)
              (extend-extend (get_indices segment built.anchored) index rest)
        | inr other ↦ rw (get_indices-push_index segment key index built.anchored, other)
      ]

-- Merging sorted lists of positions.
merge-nil : (left : List ℕ) → merge_sorted_indices left [] ≡ left
unfolding merge_sorted_indices
merge-nil [] = refl
merge-nil (l ∷ left) = refl

merge-cons_left :
    (x : ℕ) (left right : List ℕ)
    → All (λ r. x ≤ r) right
    → merge_sorted_indices (x ∷ left) right ≡ x ∷ merge_sorted_indices left right
unfolding merge_sorted_indices
merge-cons_left x left [] h = ap (λ l. x ∷ l) (sym (merge-nil left))
merge-cons_left x left (r ∷ right) (h, hs) = ground arith

merge-cons_right :
    (x : ℕ) (left right : List ℕ)
    → All (λ l. x < l) left
    → merge_sorted_indices left (x ∷ right) ≡ x ∷ merge_sorted_indices left right
unfolding merge_sorted_indices
merge-cons_right x [] right h = refl
merge-cons_right x (l ∷ left) [] (h, hs) = ground arith
merge-cons_right x (l ∷ left) (r ∷ right) (h, hs) = ground arith

module _ {ℓ} {A : Type ℓ} where
  indices_of_above :
      (p : A → Bool) (bound index : ℕ) (xs : List A)
      → bound ≤ index
      → All (λ i. bound ≤ i) (indices_of p index xs)
  unfolding indices_of
  indices_of_above p bound index [] h = tt
  indices_of_above p bound index (x ∷ xs) h =
      ground (arith, indices_of_above p bound (suc index) xs (omega arith))

  merge-indices_of :
      (p q r : A → Bool) (index : ℕ) (xs : List A)
      → ((x : A) → r x ≡ (p x || q x))
      → ((x : A) → p x ≡ true → q x ≡ false)
      → merge_sorted_indices (indices_of p index xs) (indices_of q index xs) ≡ indices_of r index xs
  unfolding indices_of
  merge-indices_of p q r index [] union apart = unfold merge_sorted_indices in refl
  merge-indices_of p q r index (x ∷ xs) union apart =
      let above = λ (t : A → Bool). indices_of_above t (suc index) (suc index) xs (omega arith) in
      let ih = merge-indices_of p q r (suc index) xs union apart in
      elim (Bool-cases (p x)) [
        | inl e ↦
            rw (union x, e, apart x e)
              (merge-cons_left index _ (indices_of q (suc index) xs)
                  (indices_of_above q index (suc index) xs (omega arith))
                ∙ ap (λ l. index ∷ l) ih)
        | inr e ↦ elim (Bool-cases (q x)) [
          | inl f ↦
              rw (union x, e, f)
                (merge-cons_right index (indices_of p (suc index) xs) _ (above p)
                  ∙ ap (λ l. index ∷ l) ih)
          | inr f ↦ rw (union x, e, f) ih
        ]
      ]

  indices_of-ext :
      (p q : A → Bool) (index : ℕ) (xs : List A)
      → ((x : A) → p x ≡ q x)
      → indices_of p index xs ≡ indices_of q index xs
  unfolding indices_of
  indices_of-ext p q index [] h = refl
  indices_of-ext p q index (x ∷ xs) h =
      rw (h x) (ap (λ l. if q x then index ∷ l else l) (indices_of-ext p q (suc index) xs h))

combine :
    (anchored fallback : List ℕ)
    → indices_with_fallback (extend none anchored) fallback ≡ merge_sorted_indices anchored fallback
unfolding merge_sorted_indices
combine [] fallback = refl
combine (i ∷ is') [] = refl
combine (i ∷ is') (j ∷ js) = refl

-- The index yields, in the order of the table, exactly the positions of the routes that start with
-- no literal or with the first segment of the path.
pub candidate_indices-rebuild {ℓ} :
    {A : Type ℓ} (first_segment : A → Option Text) (routes : List A) (path : Text)
    → candidate_indices (rebuild first_segment routes) path
      ≡ indices_of (λ route. is_candidate (first_path_segment path) (first_segment route)) 0 routes
unfolding candidate_indices rebuild get_indices
candidate_indices-rebuild first_segment routes path = go (first_path_segment path)
  where
    built : RouteFirstSegmentIndex
    built = rebuild_from first_segment 0 routes empty_index

    candidate_none : (o : Option Text) → is_none o ≡ is_candidate none o
    candidate_none none = refl
    candidate_none (some key) = refl

    candidate_some :
        (segment : Text) (o : Option Text)
        → is_candidate (some segment) o ≡ (has_segment segment o || is_none o)
    candidate_some segment none = refl
    candidate_some segment (some key) = ground arith

    apart : (segment : Text) (o : Option Text) → has_segment segment o ≡ true → is_none o ≡ false
    apart segment none h = cc
    apart segment (some key) h = refl

    anchored_lem :
        (segment : Text)
        → get_indices segment built.anchored
          ≡ extend none (indices_of (λ r. has_segment segment (first_segment r)) 0 routes)
    anchored_lem segment = get_indices-rebuild_from first_segment segment 0 routes empty_index

    fallback_lem : built.fallback ≡ indices_of (λ r. is_none (first_segment r)) 0 routes
    fallback_lem = fallback-rebuild_from first_segment 0 routes empty_index

    go :
        (o : Option Text)
        → (elim o [
          | none ↦ built.fallback
          | some segment ↦ indices_with_fallback (get_indices segment built.anchored) built.fallback
        ])
          ≡ indices_of (λ route. is_candidate o (first_segment route)) 0 routes
    go none = fallback_lem ∙ indices_of-ext _ _ 0 routes (λ r. candidate_none (first_segment r))
    go (some segment) =
        rw (anchored_lem segment, fallback_lem)
          (combine _ _
            ∙ merge-indices_of _ _ _ 0 routes (λ r. candidate_some segment (first_segment r))
                (λ r. apart segment (first_segment r)))
