-- ===== src/Prelude/Orders.antt =====
-- `sort_by`, a stable sort, as insertion from the right, with the order and membership lemmas.
use Prim.Native.Nat.{Ordering}
use mathlib.Core.Path.{◌≡◌, refl}
use mathlib.Core.List.Perm
use mathlib.Core.List.{List, [], ◌∷◌, Perm}
use nivasa.Prelude.Lists.{All}

-- The comparison says "less" or "equal".
abbrev pub Below : Ordering → Type 0
Below Ordering.gt = ⊥
Below _ = Unit

module _ {ℓ} {A : Type ℓ} (cmp : A → A → Ordering) where
  -- `x` stands before the elements that it does not exceed, so equal elements keep their order.
  unfoldable pub insert_by : A → List A → List A
  insert_by x [] = x ∷ []
  insert_by x (y ∷ ys) = elim (cmp x y) [
    | Ordering.gt ↦ y ∷ insert_by x ys
    | Ordering.lt ↦ x ∷ y ∷ ys
    | Ordering.eq ↦ x ∷ y ∷ ys
  ]

  unfoldable pub sort_by : List A → List A
  sort_by [] = []
  sort_by (x ∷ xs) = insert_by x (sort_by xs)

  -- No element stands before one that it exceeds.
  abbrev pub IsSortedBy : List A → Type ℓ
  IsSortedBy [] = Unit
  IsSortedBy (x ∷ xs) = All (λ y. Below (cmp x y)) xs × IsSortedBy xs

  pub insert_by-perm : (x : A) (ys : List A) → Perm (insert_by x ys) (x ∷ ys)
  unfolding insert_by
  insert_by-perm x [] = Perm.rfl
  insert_by-perm x (y ∷ ys) = go (cmp x y) (insert_by-perm x ys)
    where
      go :
          (o : Ordering)
          → Perm (insert_by x ys) (x ∷ ys)
          → Perm
              (elim o [
                | Ordering.gt ↦ y ∷ insert_by x ys
                | Ordering.lt ↦ x ∷ y ∷ ys
                | Ordering.eq ↦ x ∷ y ∷ ys
              ])
              (x ∷ y ∷ ys)
      go Ordering.gt ih = Perm.trans (Perm.cons y ih) (Perm.swap x y ys)
      go Ordering.lt ih = Perm.rfl
      go Ordering.eq ih = Perm.rfl

  -- A stable sort rearranges.
  pub sort_by-perm : (xs : List A) → Perm (sort_by xs) xs
  unfolding sort_by
  sort_by-perm [] = Perm.rfl
  sort_by-perm (x ∷ xs) = Perm.trans (insert_by-perm x (sort_by xs)) (Perm.cons x (sort_by-perm xs))

-- A comparison is a total preorder.
pub record IsPreorder {ℓ} {A : Type ℓ} (cmp : A → A → Ordering) : Type ℓ where
  pub total : (x y : A) → cmp x y ≡ Ordering.gt → Below (cmp y x)
  pub trans : (x y z : A) → Below (cmp x y) → Below (cmp y z) → Below (cmp x z)

module _ {ℓ κ} {A : Type ℓ} (cmp : A → A → Ordering) (P : A → Type κ) where
  insert_by-All : (x : A) (ys : List A) → P x → All P ys → All P (insert_by cmp x ys)
  unfolding insert_by
  insert_by-All x [] p h = (p, tt)
  insert_by-All x (y ∷ ys) p (q, h) = go (cmp x y) (insert_by-All x ys p h)
    where
      go :
          (o : Ordering)
          → All P (insert_by cmp x ys)
          → All P (elim o [
            | Ordering.gt ↦ y ∷ insert_by cmp x ys
            | Ordering.lt ↦ x ∷ y ∷ ys
            | Ordering.eq ↦ x ∷ y ∷ ys
          ])
      go Ordering.gt ih = (q, ih)
      go Ordering.lt ih = (p, (q, h))
      go Ordering.eq ih = (p, (q, h))

module _ {ℓ} {A : Type ℓ} {cmp : A → A → Ordering} (order : IsPreorder cmp) where
  insert_by-IsSortedBy :
      (x : A) (ys : List A) → IsSortedBy cmp ys → IsSortedBy cmp (insert_by cmp x ys)
  unfolding insert_by
  insert_by-IsSortedBy x [] h = (tt, tt)
  insert_by-IsSortedBy x (y ∷ ys) (h, hs) = go (cmp x y) refl (insert_by-IsSortedBy x ys hs)
    where
      above :
          (zs : List A)
          → Below (cmp x y)
          → All (λ z. Below (cmp y z)) zs
          → All (λ z. Below (cmp x z)) zs
      above [] b k = tt
      above (z ∷ zs) b (k, ks) = (order.trans x y z b k, above zs b ks)

      front : Below (cmp x y) → IsSortedBy cmp (x ∷ y ∷ ys)
      front b = ((b, above ys b h), (h, hs))

      go :
          (o : Ordering)
          → cmp x y ≡ o
          → IsSortedBy cmp (insert_by cmp x ys)
          → IsSortedBy cmp (elim o [
            | Ordering.gt ↦ y ∷ insert_by cmp x ys
            | Ordering.lt ↦ x ∷ y ∷ ys
            | Ordering.eq ↦ x ∷ y ∷ ys
          ])
      go Ordering.gt e ih =
          (insert_by-All cmp (λ z. Below (cmp y z)) x ys (order.total x y e) h, ih)
      go Ordering.lt e ih = front (rw e tt)
      go Ordering.eq e ih = front (rw e tt)

  -- A stable sort by a total preorder yields a sorted list.
  pub sort_by-IsSortedBy : (xs : List A) → IsSortedBy cmp (sort_by cmp xs)
  unfolding sort_by
  sort_by-IsSortedBy [] = tt
  sort_by-IsSortedBy (x ∷ xs) = insert_by-IsSortedBy x (sort_by cmp xs) (sort_by-IsSortedBy xs)
