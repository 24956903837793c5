-- ===== src/Routing/Dispatch/Methods.antt =====
-- `allowed_methods`: sorted, without repetitions, and complete.
use nivasa.Prelude.{
  cmp_text, Bool-cases, All, Text, text_eq, text_eq_iff, Below, sort_by, IsSortedBy, sort_by-perm,
  IsPreorder, sort_by-IsSortedBy, Ordering, ◌≡◌, refl, sym, ap, ◌∙◌, ◌↔◌, inl, inr, false, List, [],
  ◌∷◌, map, arith,
}
use mathlib.Core.Logic.Or
use mathlib.Core.List.Perm
use mathlib.Core.List.{Mem, Perm, mem-cons, mem-cons_of_mem, Mem-prop}
use nivasa.Routing.Method.{as_str}
use nivasa.Routing.Dispatch.Selection.{RouteDispatchSelection, drop_equal, dedup, allowed_methods}

cmp_text_total : (s t : Text) → cmp_text s t ≡ Ordering.gt → Below (cmp_text t s)
cmp_text_total [] [] h = tt
cmp_text_total [] (b ∷ t) h = ground arith
cmp_text_total (a ∷ s) [] h = tt
cmp_text_total (a ∷ s) (b ∷ t) h = ground (arith, cmp_text_total s t)

cmp_text_trans : (s t u : Text) → Below (cmp_text s t) → Below (cmp_text t u) → Below (cmp_text s u)
cmp_text_trans [] [] [] h k = tt
cmp_text_trans [] [] (c ∷ u) h k = tt
cmp_text_trans [] (b ∷ t) [] h k = tt
cmp_text_trans [] (b ∷ t) (c ∷ u) h k = tt
cmp_text_trans (a ∷ s) [] u h k = absurd h
cmp_text_trans (a ∷ s) (b ∷ t) [] h k = absurd k
cmp_text_trans (a ∷ s) (b ∷ t) (c ∷ u) h k = ground (arith, cmp_text_trans s t u)

cmp_text-IsPreorder : IsPreorder cmp_text
cmp_text-IsPreorder = record { total = cmp_text_total; trans = cmp_text_trans }

-- Not above and not equal is below.
cmp_text_lt : (s t : Text) → Below (cmp_text s t) → text_eq s t ≡ false → cmp_text s t ≡ Ordering.lt
cmp_text_lt [] [] h n = cc
cmp_text_lt [] (b ∷ t) h n = refl
cmp_text_lt (a ∷ s) [] h n = absurd h
cmp_text_lt (a ∷ s) (b ∷ t) h n = ground (arith, cmp_text_lt s t)

-- Each text stands before the next one in the order of `String`.
abbrev pub IsAscending : List Text → Type 0
IsAscending [] = Unit
IsAscending (x ∷ []) = Unit
IsAscending (x ∷ y ∷ ys) = (cmp_text x y ≡ Ordering.lt) × IsAscending (y ∷ ys)

drop_equal_head : (x : Text) (xs : List Text) → (ys : List Text) × (drop_equal x xs ≡ x ∷ ys)
drop_equal_head x [] = ([], refl)
drop_equal_head x (y ∷ ys) = elim (Bool-cases (text_eq x y)) [
  | inl e ↦ (ys, rw e (ap (λ z. z ∷ ys) (sym ((text_eq_iff x y).0 e))))
  | inr e ↦ (y ∷ ys, rw e refl)
]

drop_equal-IsAscending :
    (x : Text) (xs : List Text)
    → All (λ y. Below (cmp_text x y)) xs
    → IsAscending xs
    → IsAscending (drop_equal x xs)
drop_equal-IsAscending x [] h k = tt
drop_equal-IsAscending x (y ∷ ys) (b, h) k = elim (Bool-cases (text_eq x y)) [
  | inl e ↦ rw e k
  | inr e ↦ rw e (cmp_text_lt x y b e, k)
]

drop_equal-All :
    (P : Text → Type 0) (x : Text) (xs : List Text) → P x → All P xs → All P (drop_equal x xs)
drop_equal-All P x [] p h = (p, tt)
drop_equal-All P x (y ∷ ys) p h = elim (Bool-cases (text_eq x y)) [
  | inl e ↦ rw e h
  | inr e ↦ rw e (p, h)
]

dedup-All : (P : Text → Type 0) (xs : List Text) → All P xs → All P (dedup xs)
unfolding dedup
dedup-All P [] h = tt
dedup-All P (x ∷ xs) (p, h) = drop_equal-All P x (dedup xs) p (dedup-All P xs h)

dedup-IsAscending : (xs : List Text) → IsSortedBy cmp_text xs → IsAscending (dedup xs)
unfolding dedup
dedup-IsAscending [] h = tt
dedup-IsAscending (x ∷ xs) (h, hs) =
    drop_equal-IsAscending x (dedup xs) (dedup-All _ xs h) (dedup-IsAscending xs hs)

mem-drop_equal : (a x : Text) (xs : List Text) → Mem a (drop_equal x xs) ↔ Mem a (x ∷ xs)
mem-drop_equal a x [] = ((λ m. m), (λ m. m))
mem-drop_equal a x (y ∷ ys) = elim (Bool-cases (text_eq x y)) [
  | inl e ↦ rw e (
    mem-cons_of_mem x,
    λ m.
        Or.elim Mem-prop (mem-cons.0 m) (λ f. mem-cons.1 (Or.inl (f ∙ (text_eq_iff x y).0 e)))
          (λ n. n),
  )
  | inr e ↦ rw e ((λ m. m), (λ m. m))
]

mem-dedup : (a : Text) (xs : List Text) → Mem a (dedup xs) ↔ Mem a xs
unfolding dedup
mem-dedup a [] = ((λ m. m), (λ m. m))
mem-dedup a (x ∷ xs) =
    let ih = mem-dedup a xs in
    let here' = mem-drop_equal a x (dedup xs) in
    (
      λ m.
          Or.elim Mem-prop (mem-cons.0 (here'.0 m)) (λ e. mem-cons.1 (Or.inl e))
            (λ n. mem-cons_of_mem x (ih.0 n)),
      λ m. here'.1 (
          Or.elim Mem-prop (mem-cons.0 m) (λ e. mem-cons.1 (Or.inl e))
            (λ n. mem-cons_of_mem x (ih.1 n))),
    )

-- The allowed methods stand in ascending order, so each once, and are the methods of the selected
-- routes.
pub allowed_methods_lem {ℓ} :
    {T : Type ℓ} (self : RouteDispatchSelection T) (method : Text)
    → IsAscending (allowed_methods self)
      × (Mem method (allowed_methods self)
          ↔ Mem method (map (λ entry. as_str entry.method) self.entries))
unfolding allowed_methods
allowed_methods_lem self method = (
  dedup-IsAscending (sort_by cmp_text names) (sort_by-IsSortedBy cmp_text-IsPreorder names),
  (
    λ m. Perm.subset sorted method ((mem-dedup method (sort_by cmp_text names)).0 m),
    λ m. (mem-dedup method (sort_by cmp_text names)).1 (Perm.subset (Perm.symm sorted) method m),
  ),
)
  where
    names : List Text
    names = map (λ entry. as_str entry.method) self.entries

    sorted : Perm (sort_by cmp_text names) names
    sorted = sort_by-perm cmp_text names
