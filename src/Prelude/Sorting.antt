-- ===== src/Prelude/Sorting.antt =====
-- What `sort_by` leaves: look-ups in a map, the length, properties of all elements, and images.
use Prim.Native.Nat.{ℕ, suc, Ordering}
use mathlib.Core.Path.{◌≡◌, refl, sym, ap, ◌∙◌, subst}
use mathlib.Core.Logic.{◌⊎◌, inl, inr}
use mathlib.Core.Bool.{Bool, false, ◌||◌}
use mathlib.Core.List.{List, [], ◌∷◌, map}
use mathlib.Core.Option
use mathlib.Core.Option.{Option, none, some}
use native.Mathlib.Omega.{arith}
use nivasa.Prelude.Tests.{◌==◌, if◌then◌else◌}
use nivasa.Prelude.Lists.{length, any, All}
use nivasa.Prelude.Orders.{insert_by, sort_by}
use nivasa.Prelude.Sets.{mem, lookup, keys, IsDistinct}

module _ {ℓ} {A : Type ℓ} (cmp : A → A → Ordering) where
  -- The element stands in front, or behind the first one.
  pub insert_by-cases :
      (x y : A) (ys : List A)
      → (insert_by cmp x (y ∷ ys) ≡ x ∷ y ∷ ys)
        ⊎ (insert_by cmp x (y ∷ ys) ≡ y ∷ insert_by cmp x ys)
  unfolding insert_by
  insert_by-cases x y ys = go (cmp x y)
    where
      go :
          (o : Ordering)
          → ((elim o as (λ _. List A) [
            | Ordering.gt ↦ y ∷ insert_by cmp x ys
            | Ordering.lt ↦ x ∷ y ∷ ys
            | Ordering.eq ↦ x ∷ y ∷ ys
          ])
              ≡ x ∷ y ∷ ys)
            ⊎ ((elim o as (λ _. List A) [
              | Ordering.gt ↦ y ∷ insert_by cmp x ys
              | Ordering.lt ↦ x ∷ y ∷ ys
              | Ordering.eq ↦ x ∷ y ∷ ys
            ])
                ≡ y ∷ insert_by cmp x ys)
      go Ordering.gt = inr refl
      go Ordering.lt = inl refl
      go Ordering.eq = inl refl

  length-insert_by : (x : A) (ys : List A) → length (insert_by cmp x ys) ≡ suc (length ys)
  unfolding insert_by
  length-insert_by x [] = refl
  length-insert_by x (y ∷ ys) = elim (insert_by-cases x y ys) [
    | inl e ↦ ap length e
    | inr e ↦ ap length e ∙ ap suc (length-insert_by x ys)
  ]

  pub length-sort_by : (xs : List A) → length (sort_by cmp xs) ≡ length xs
  unfolding sort_by
  length-sort_by [] = refl
  length-sort_by (x ∷ xs) = length-insert_by x (sort_by cmp xs) ∙ ap suc (length-sort_by xs)

module _ {ℓ} {A : Type ℓ} (p : A → Bool) (cmp : A → A → Ordering) where
  any-insert_by : (x : A) (ys : List A) → any p (insert_by cmp x ys) ≡ (p x || any p ys)
  unfolding insert_by
  any-insert_by x [] = refl
  any-insert_by x (y ∷ ys) = elim (insert_by-cases cmp x y ys) [
    | inl e ↦ ap (any p) e
    | inr e ↦ let ih = any-insert_by x ys in ap (any p) e ∙ ground arith
  ]

  -- A sorted list has an element with the property if the list has one.
  pub any-sort_by : (xs : List A) → any p (sort_by cmp xs) ≡ any p xs
  unfolding sort_by
  any-sort_by [] = refl
  any-sort_by (x ∷ xs) = any-insert_by x (sort_by cmp xs) ∙ ap (λ b. p x || b) (any-sort_by xs)

module _ {ℓ κ} {A : Type ℓ} (P : A → Type κ) (cmp : A → A → Ordering) where
  All-insert_by : (x : A) (ys : List A) → P x → All P ys → All P (insert_by cmp x ys)
  unfolding insert_by
  All-insert_by x [] p h = (p, h)
  All-insert_by x (y ∷ ys) p (q, h) = elim (insert_by-cases cmp x y ys) [
    | inl e ↦ subst (All P) (sym e) (p, (q, h))
    | inr e ↦ subst (All P) (sym e) (q, All-insert_by x ys p h)
  ]

  pub All-sort_by : (xs : List A) → All P xs → All P (sort_by cmp xs)
  unfolding sort_by
  All-sort_by [] h = h
  All-sort_by (x ∷ xs) (p, h) = All-insert_by x (sort_by cmp xs) p (All-sort_by xs h)

module _ {ℓ κ} {A : Type ℓ} {B : Type κ} (f : A → B) (cmp : B → B → Ordering) where
  insert_by-map :
      (x : A) (ys : List A)
      → insert_by cmp (f x) (map f ys) ≡ map f (insert_by (λ a b. cmp (f a) (f b)) x ys)
  unfolding insert_by
  insert_by-map x [] = refl
  insert_by-map x (y ∷ ys) = go (cmp (f x) (f y)) (insert_by-map x ys)
    where
      go :
          (o : Ordering)
          → insert_by cmp (f x) (map f ys) ≡ map f (insert_by (λ a b. cmp (f a) (f b)) x ys)
          → (elim o as (λ _. List B) [
            | Ordering.gt ↦ f y ∷ insert_by cmp (f x) (map f ys)
            | Ordering.lt ↦ f x ∷ f y ∷ map f ys
            | Ordering.eq ↦ f x ∷ f y ∷ map f ys
          ])
            ≡ map f (elim o as (λ _. List A) [
              | Ordering.gt ↦ y ∷ insert_by (λ a b. cmp (f a) (f b)) x ys
              | Ordering.lt ↦ x ∷ y ∷ ys
              | Ordering.eq ↦ x ∷ y ∷ ys
            ])
      go Ordering.gt ih = ap (λ l. f y ∷ l) ih
      go Ordering.lt ih = refl
      go Ordering.eq ih = refl

  -- Sorting images is taking images of what is sorted by them.
  pub sort_by-map :
      (xs : List A) → sort_by cmp (map f xs) ≡ map f (sort_by (λ a b. cmp (f a) (f b)) xs)
  unfolding sort_by
  sort_by-map [] = refl
  sort_by-map (x ∷ xs) =
      ap (insert_by cmp (f x)) (sort_by-map xs)
      ∙ insert_by-map x (sort_by (λ a b. cmp (f a) (f b)) xs)

module _ {ℓ} {A : Type ℓ} (cmp : ℕ × A → ℕ × A → Ordering) where
  mem-insert_by :
      (k : ℕ) (x : ℕ × A) (m : List (ℕ × A))
      → mem k (keys (insert_by cmp x m)) ≡ (x.0 == k || mem k (keys m))
  unfolding insert_by
  mem-insert_by k x [] = refl
  mem-insert_by k x (y ∷ m) = elim (insert_by-cases cmp x y m) [
    | inl e ↦ ap (λ l. mem k (keys l)) e
    | inr e ↦ let ih = mem-insert_by k x m in ap (λ l. mem k (keys l)) e ∙ ground arith
  ]

  pub mem-sort_by : (k : ℕ) (m : List (ℕ × A)) → mem k (keys (sort_by cmp m)) ≡ mem k (keys m)
  unfolding sort_by
  mem-sort_by k [] = refl
  mem-sort_by k (x ∷ m) =
      mem-insert_by k x (sort_by cmp m) ∙ ap (λ b. x.0 == k || b) (mem-sort_by k m)

  lookup-insert_by :
      (k : ℕ) (x : ℕ × A) (m : List (ℕ × A))
      → mem x.0 (keys m) ≡ false
      → lookup k (insert_by cmp x m) ≡ lookup k (x ∷ m)
  unfolding insert_by
  lookup-insert_by k x [] fresh = refl
  lookup-insert_by k x (y ∷ m) fresh = elim (insert_by-cases cmp x y m) [
    | inl e ↦ ap (lookup k) e
    | inr e ↦ let ih = lookup-insert_by k x m (ground arith) in ap (lookup k) e ∙ ground arith
  ]

  -- A map with distinct keys answers the same, in whatever order it stands.
  pub lookup-sort_by :
      (k : ℕ) (m : List (ℕ × A)) → IsDistinct (keys m) → lookup k (sort_by cmp m) ≡ lookup k m
  unfolding sort_by
  lookup-sort_by k [] d = refl
  lookup-sort_by k (x ∷ m) (fresh, d) =
      lookup-insert_by k x (sort_by cmp m) (mem-sort_by x.0 m ∙ fresh)
      ∙ ap (λ o. if x.0 == k then some x.1 else o) (lookup-sort_by k m d)

module _ {ℓ κ} {A : Type ℓ} {B : Type κ} (f : A → B) where
  pub lookup-map :
      (k : ℕ) (m : List (ℕ × A))
      → lookup k (map (λ item. (item.0, f item.1)) m) ≡ Option.map f (lookup k m)
  lookup-map k [] = refl
  lookup-map k ((j, a) ∷ m) = ground (arith, lookup-map k m)

pub length-map {ℓ κ} :
    {A : Type ℓ} {B : Type κ} (f : A → B) (xs : List A) → length (map f xs) ≡ length xs
length-map f [] = refl
length-map f (x ∷ xs) = ap suc (length-map f xs)
