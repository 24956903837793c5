-- ===== src/Prelude/Sets.antt =====
-- `HashSet` over identifiers, as lists without an order that matters, and `HashMap` as association
-- lists in some order of iteration. A `TypeId` is a number: the sources only compare it.
use Prim.Native.Nat.{ℕ, ◌<◌, ◌≤◌}
use mathlib.Core.Path.{◌≡◌, refl, sym, ap, ◌∙◌}
use mathlib.Core.Logic.{inl, inr}
use mathlib.Core.Bool.{Bool, true, false, not, ◌||◌}
use mathlib.Core.List.{List, [], ◌∷◌, map}
use mathlib.Core.Option.{Option, none, some}
use native.Mathlib.Omega.{arith}
use nivasa.Prelude.Tests.{==_iff, some-injective, ◌==◌, if◌then◌else◌, is_some, Bool-cases}
use nivasa.Prelude.Lists.{length, keep, All}

-- `contains`.
abbrev pub mem : ℕ → List ℕ → Bool
mem x [] = false
mem x (y ∷ ys) = y == x || mem x ys

-- `HashSet::insert`.
abbrev pub insert_set : ℕ → List ℕ → List ℕ
insert_set x xs = if mem x xs then xs else x ∷ xs

-- `HashSet::remove`.
abbrev pub remove_set : ℕ → List ℕ → List ℕ
remove_set x [] = []
remove_set x (y ∷ ys) = let rest = remove_set x ys in if y == x then rest else y ∷ rest

pub remove_set_fresh : (x : ℕ) (xs : List ℕ) → mem x xs ≡ false → remove_set x xs ≡ xs
remove_set_fresh x [] h = refl
remove_set_fresh x (y ∷ ys) h = ground (arith, remove_set_fresh x ys)

pub remove_set_head : (x : ℕ) (xs : List ℕ) → mem x xs ≡ false → remove_set x (x ∷ xs) ≡ xs
remove_set_head x xs h = ground (arith, remove_set_fresh x xs h)

-- No identifier stands in the list twice.
abbrev pub IsDistinct : List ℕ → Type 0
IsDistinct [] = Unit
IsDistinct (x ∷ xs) = (mem x xs ≡ false) × IsDistinct xs

module _ {ℓ} {A : Type ℓ} where
  -- `HashMap::get`.
  abbrev pub lookup : ℕ → List (ℕ × A) → Option A
  lookup k [] = none
  lookup k ((j, a) ∷ m) = if j == k then some a else lookup k m

  -- `HashMap::insert`.
  abbrev pub insert_map : ℕ → A → List (ℕ × A) → List (ℕ × A)
  insert_map k a [] = (k, a) ∷ []
  insert_map k a ((j, b) ∷ m) = if j == k then (k, a) ∷ m else (j, b) ∷ insert_map k a m

  abbrev pub keys : List (ℕ × A) → List ℕ
  keys m = map (λ entry. entry.0) m

  pub mem-keys : (k : ℕ) (m : List (ℕ × A)) → mem k (keys m) ≡ is_some (lookup k m)
  mem-keys k [] = refl
  mem-keys k ((j, a) ∷ m) = ground (arith, mem-keys k m)

  pub lookup-insert_map :
      (k j : ℕ) (a : A) (m : List (ℕ × A))
      → lookup j (insert_map k a m) ≡ (if k == j then some a else lookup j m)
  lookup-insert_map k j a [] = refl
  lookup-insert_map k j a ((i, b) ∷ m) = ground (arith, lookup-insert_map k j a m)

module _ {ℓ} {A : Type ℓ} where
  -- `HashMap::remove`.
  abbrev pub remove_map : ℕ → List (ℕ × A) → List (ℕ × A)
  remove_map k [] = []
  remove_map k ((j, a) ∷ m) = let rest = remove_map k m in if j == k then m else (j, a) ∷ rest

  -- `HashMap::get_mut`, and a change of what it finds.
  abbrev pub adjust_map : ℕ → (A → A) → List (ℕ × A) → List (ℕ × A)
  adjust_map k f [] = []
  adjust_map k f ((j, a) ∷ m) =
      let rest = adjust_map k f m in if j == k then (j, f a) ∷ m else (j, a) ∷ rest

  pub keys-adjust_map : (k : ℕ) (f : A → A) (m : List (ℕ × A)) → keys (adjust_map k f m) ≡ keys m
  keys-adjust_map k f [] = refl
  keys-adjust_map k f ((j, a) ∷ m) = elim (Bool-cases (j == k)) [
    | inl h ↦ rw h refl
    | inr h ↦ rw h (ap (λ js. j ∷ js) (keys-adjust_map k f m))
  ]

  mem-keys-remove_map :
      (k x : ℕ) (m : List (ℕ × A)) → mem x (keys m) ≡ false → mem x (keys (remove_map k m)) ≡ false
  mem-keys-remove_map k x [] h = refl
  mem-keys-remove_map k x ((j, a) ∷ m) h = elim (Bool-cases (j == k)) [
    | inl e ↦ rw e (ground arith)
    | inr e ↦ rw e (ground (arith, mem-keys-remove_map k x m))
  ]

  pub IsDistinct-remove_map :
      (k : ℕ) (m : List (ℕ × A)) → IsDistinct (keys m) → IsDistinct (keys (remove_map k m))
  IsDistinct-remove_map k [] d = tt
  IsDistinct-remove_map k ((j, a) ∷ m) (n, d) = elim (Bool-cases (j == k)) [
    | inl e ↦ rw e d
    | inr e ↦ rw e (mem-keys-remove_map k j m n, IsDistinct-remove_map k m d)
  ]

  -- Removing what was changed is removing.
  pub remove_map-adjust_map :
      (k : ℕ) (f : A → A) (m : List (ℕ × A)) → remove_map k (adjust_map k f m) ≡ remove_map k m
  remove_map-adjust_map k f [] = refl
  remove_map-adjust_map k f ((j, a) ∷ m) = elim (Bool-cases (j == k)) [
    | inl h ↦ rw h (rw h refl)
    | inr h ↦ rw h (rw h (ap (λ l. (j, a) ∷ l) (remove_map-adjust_map k f m)))
  ]

-- How many of the listed identifiers are outside the set.
abbrev pub count_outside : List ℕ → List ℕ → ℕ
count_outside xs set = length (keep (λ x. not (mem x set)) xs)

pub count_outside-le : (xs set : List ℕ) (c : ℕ) → count_outside xs (c ∷ set) ≤ count_outside xs set
count_outside-le [] set c = omega arith
count_outside-le (x ∷ xs) set c = ground (arith, count_outside-le xs set c)

-- Adding a listed identifier that was outside makes the count smaller.
pub count_outside-lt :
    (xs set : List ℕ) (c : ℕ)
    → mem c xs ≡ true
    → mem c set ≡ false
    → count_outside xs (c ∷ set) < count_outside xs set
count_outside-lt [] set c h n = cc
count_outside-lt (x ∷ xs) set c h n =
    ground (arith, count_outside-le xs set c, count_outside-lt xs set c)

module _ {ℓ} {A : Type ℓ} where
  pub lookup-remove_map :
      (k j : ℕ) (m : List (ℕ × A)) → (k == j) ≡ false → lookup j (remove_map k m) ≡ lookup j m
  lookup-remove_map k j [] differ = refl
  lookup-remove_map k j ((i, a) ∷ m) differ = elim (Bool-cases (i == k)) [
    | inl e ↦ rw e (ground arith)
    | inr e ↦ rw e (ground (arith, lookup-remove_map k j m differ))
  ]

  pub lookup-adjust_map :
      (k j : ℕ) (f : A → A) (m : List (ℕ × A)) (a : A)
      → lookup j m ≡ some a
      → lookup j (adjust_map k f m) ≡ some (if k == j then f a else a)
  lookup-adjust_map k j f [] a here = cc
  lookup-adjust_map k j f ((i, b) ∷ m) a here = elim (Bool-cases (i == j)) [
    | inl e ↦
        let same : b ≡ a = some-injective (rw e at here) in
        elim (Bool-cases (i == k)) [
          | inl h ↦ rw h (rw e (rw (equal i k j h e) (ap (λ x. some (f x)) same)))
          | inr h ↦ rw h (rw e (rw (apart i k j h e) (ap (λ x. some x) same)))
        ]
    | inr e ↦ elim (Bool-cases (i == k)) [
      | inl h ↦ rw h (rw e (rw (other i k j h e) (rw e at here)))
      | inr h ↦ rw h (rw e (lookup-adjust_map k j f m a (rw e at here)))
    ]
  ]
    where
      equal : (i k j : ℕ) → (i == k) ≡ true → (i == j) ≡ true → (k == j) ≡ true
      equal i k j h e = ground arith

      apart : (i k j : ℕ) → (i == k) ≡ false → (i == j) ≡ true → (k == j) ≡ false
      apart i k j h e = ground arith

      other : (i k j : ℕ) → (i == k) ≡ true → (i == j) ≡ false → (k == j) ≡ false
      other i k j h e = ground arith

  pub mem-keys-insert_map :
      (x k : ℕ) (a : A) (m : List (ℕ × A))
      → mem x (keys (insert_map k a m)) ≡ (k == x || mem x (keys m))
  mem-keys-insert_map x k a [] = refl
  mem-keys-insert_map x k a ((j, b) ∷ m) = elim (Bool-cases (j == k)) [
    | inl e ↦ rw e (twice e)
    | inr e ↦ rw e (ground (arith, mem-keys-insert_map x k a m))
  ]
    where
      twice : (j == k) ≡ true → (k == x || mem x (keys m)) ≡ (k == x || (j == x || mem x (keys m)))
      twice e = ground arith

  -- Inserting keeps the keys distinct.
  pub IsDistinct-insert_map :
      (k : ℕ) (a : A) (m : List (ℕ × A))
      → IsDistinct (keys m)
      → IsDistinct (keys (insert_map k a m))
  IsDistinct-insert_map k a [] d = (refl, tt)
  IsDistinct-insert_map k a ((j, b) ∷ m) (fresh, d) = elim (Bool-cases (j == k)) [
    | inl e ↦ rw e (moved e, d)
    | inr e ↦ rw e (still e, IsDistinct-insert_map k a m d)
  ]
    where
      moved : (j == k) ≡ true → mem k (keys m) ≡ false
      moved e = ap (λ x. mem x (keys m)) (sym ((==_iff j k).0 e)) ∙ fresh

      still : (j == k) ≡ false → mem j (keys (insert_map k a m)) ≡ false
      still e = mem-keys-insert_map j k a m ∙ ground arith

pub All-insert_map {ℓ κ} :
    {A : Type ℓ} (P : ℕ × A → Type κ) (k : ℕ) (a : A) (m : List (ℕ × A))
    → P (k, a)
    → All P m
    → All P (insert_map k a m)
All-insert_map P k a [] p h = (p, tt)
All-insert_map P k a ((j, b) ∷ m) p (q, h) = elim (Bool-cases (j == k)) [
  | inl e ↦ rw e (p, h)
  | inr e ↦ rw e (q, All-insert_map P k a m p h)
]
