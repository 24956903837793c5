-- ===== src/Routing/Table.antt =====
-- What the two registries share: an appended route in a sorted table, and keys without duplicates.
use nivasa.Prelude.{
  Bool-cases, any, sort_by, sort_by-perm, Ordering, ◌≡◌, refl, sym, subst, ◌↔◌, inl, inr, Bool,
  true, false, ◌||◌, List, [], ◌∷◌, ◌++◌, map, arith,
}
use mathlib.Core.HLevel.{⊥_prop}
use mathlib.Core.Logic.Or
use mathlib.Core.List.Perm
use mathlib.Core.List.{
  Perm, Mem, Nodup, Nodup-cons, not-mem-nil, mem-cons, mem-cons_self, mem-cons_of_mem, perm_middle,
  append-nil,
}

module _ {ℓ} {A : Type ℓ} where
  push_back-perm : (xs : List A) (x : A) → Perm (xs ++ (x ∷ [])) (x ∷ xs)
  push_back-perm xs x = rw append-nil at (perm_middle {a = x} xs [])

  -- Sorting after a push keeps the old elements and the new one.
  pub sort_by-push_back-perm :
      (cmp : A → A → Ordering) (xs : List A) (x : A) → Perm (sort_by cmp (xs ++ (x ∷ []))) (x ∷ xs)
  sort_by-push_back-perm cmp xs x = Perm.trans (sort_by-perm cmp _) (push_back-perm xs x)

-- A scan that finds no element with the key shows that the key is new.
module _ {ℓ κ} {A : Type ℓ} {K : Type κ} (key : A → K) (k : K) (test : A → Bool)
    (complete : (x : A) → key x ≡ k → test x ≡ true) where
  pub not-mem_of_any : (xs : List A) → any test xs ≡ false → ¬ Mem k (map key xs)
  not-mem_of_any [] h m = not-mem-nil m
  not-mem_of_any (x ∷ xs) h m =
      Or.elim ⊥_prop (mem-cons.0 m) (λ e. clash _ _ (complete x (sym e)) h)
        (not-mem_of_any xs (later (test x) _ h))
    where
      clash : (b c : Bool) → b ≡ true → (b || c) ≡ false → ⊥
      clash b c e f = ground arith

      later : (b c : Bool) → (b || c) ≡ false → c ≡ false
      later b c f = ground arith

  pub Nodup-push :
      (cmp : A → A → Ordering) (xs : List A) (x : A)
      → key x ≡ k
      → any test xs ≡ false
      → Nodup (map key xs)
      → Nodup (map key (sort_by cmp (xs ++ (x ∷ []))))
  Nodup-push cmp xs x e h d =
      Perm.nodup (Perm.symm (Perm.map key (sort_by-push_back-perm cmp xs x)))
        (Nodup-cons.1 ((λ m. not-mem_of_any xs h (subst (λ j. Mem j (map key xs)) e m)), d))

-- The scan finds an element exactly when the key is there.
module _ {ℓ κ} {A : Type ℓ} {K : Type κ} (key : A → K) (k : K) (test : A → Bool)
    (test_iff : (x : A) → (test x ≡ true) ↔ (key x ≡ k)) where
  pub any_iff-Mem : (xs : List A) → (any test xs ≡ true) ↔ Mem k (map key xs)
  any_iff-Mem [] = ((λ e. cc), (λ m. absurd (not-mem-nil m)))
  any_iff-Mem (x ∷ xs) =
      let ih = any_iff-Mem xs in
      (
        λ e. elim (Bool-cases (test x)) [
          | inl same ↦ subst (λ j. Mem j (map key (x ∷ xs))) ((test_iff x).0 same) mem-cons_self
          | inr other ↦ mem-cons_of_mem (key x) (ih.0 (ground arith))
        ],
        λ m. Or.elim (hlevel) (mem-cons.0 m) (λ e. head_found (sym e)) (λ n. tail_found (ih.1 n)),
      )
    where
      head_found : key x ≡ k → (test x || any test xs) ≡ true
      head_found e = rw ((test_iff x).1 e) refl

      tail_found : any test xs ≡ true → (test x || any test xs) ≡ true
      tail_found e = ground arith
