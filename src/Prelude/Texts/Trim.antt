-- ===== src/Prelude/Texts/Trim.antt =====
-- `trim`, `trim_start_matches`, `trim_end_matches`.
use Prim.Native.Nat.{ℕ}
use mathlib.Core.Path.{◌≡◌, refl}
use mathlib.Core.Logic.{◌⊎◌, inl, inr}
use mathlib.Core.Bool.{Bool, true, false, ◌&&◌, ◌||◌, not}
use mathlib.Core.List.{List, [], ◌∷◌, ◌++◌}
use mathlib.Core.Option.{none, some}
use native.Mathlib.Omega.{arith}
use nivasa.Prelude.Tests.{◌==◌, leb, if◌then◌else◌}
use nivasa.Prelude.Lists.{is_empty, first, last}
use nivasa.Prelude.Texts.Split.{Text}

-- Unicode `White_Space`, the characters that `str::trim` removes.
unfoldable pub is_whitespace : ℕ → Bool
is_whitespace c =
    (leb 9 c && leb c 13)
    || c == 32
    || c == 0x85
    || c == 0xa0
    || c == 0x1680
    || (leb 0x2000 c && leb c 0x200a)
    || c == 0x2028
    || c == 0x2029
    || c == 0x202f
    || c == 0x205f
    || c == 0x3000

module _ (p : ℕ → Bool) where
  abbrev pub drop_while : Text → Text
  drop_while [] = []
  drop_while (c ∷ s) = let rest = drop_while s in if p c then rest else c ∷ s

  -- A character goes if it passes the test and so does all that follows it.
  abbrev pub drop_end : Text → Text
  drop_end [] = []
  drop_end (c ∷ s) = let rest = drop_end s in if is_empty rest && p c then [] else c ∷ rest

abbrev pub trim_start_matches : ℕ → Text → Text
trim_start_matches c s = drop_while (λ x. x == c) s

abbrev pub trim_end_matches : ℕ → Text → Text
trim_end_matches c s = drop_end (λ x. x == c) s

abbrev pub trim_matches : ℕ → Text → Text
trim_matches c s = trim_end_matches c (trim_start_matches c s)

abbrev pub trim : Text → Text
trim s = drop_end is_whitespace (drop_while is_whitespace s)

-- The last character, if there is one, fails the test.
abbrev pub ends_without : (ℕ → Bool) → Text → Bool
ends_without p s = elim (last s) [ none ↦ true | some c ↦ not (p c) ]

abbrev pub begins_without : (ℕ → Bool) → Text → Bool
begins_without p s = elim (first s) [ none ↦ true | some c ↦ not (p c) ]

module _ (p : ℕ → Bool) where
  pub drop_while_id : (s : Text) → begins_without p s ≡ true → drop_while p s ≡ s
  drop_while_id [] h = refl
  drop_while_id (c ∷ s) h = ground arith

  pub drop_end_id : (s : Text) → ends_without p s ≡ true → drop_end p s ≡ s
  drop_end_id [] h = refl
  drop_end_id (c ∷ []) h = ground arith
  drop_end_id (c ∷ d ∷ s) h = ground (arith, drop_end_id (d ∷ s) h)

  pub last-drop_end : (s : Text) → ends_without p (drop_end p s) ≡ true
  last-drop_end [] = refl
  last-drop_end (c ∷ s) = elim (drop_end_cases (drop_end p s)) [
    | inl e ↦ rw e (alone (p c) refl)
    | inr (d, t, e) ↦ rw e (rw e at (last-drop_end s))
  ]
    where
      drop_end_cases : (t : Text) → (t ≡ []) ⊎ ((d : ℕ) × (u : Text) × (t ≡ d ∷ u))
      drop_end_cases [] = inl refl
      drop_end_cases (d ∷ u) = inr (d, u, refl)

      alone : (b : Bool) → p c ≡ b → ends_without p (if b then [] else c ∷ []) ≡ true
      alone true e = refl
      alone false e = rw e refl

  pub first-drop_while : (s : Text) → begins_without p (drop_while p s) ≡ true
  first-drop_while [] = refl
  first-drop_while (c ∷ s) = ground (arith, first-drop_while s)

pub last-append {ℓ} :
    {A : Type ℓ} (xs : List A) (y : A) (ys : List A) → last (xs ++ (y ∷ ys)) ≡ last (y ∷ ys)
last-append [] y ys = refl
last-append (x ∷ []) y ys = refl
last-append (x ∷ z ∷ xs) y ys = last-append (z ∷ xs) y ys

-- A text that neither begins nor ends with white space is its own trimming.
pub trim_id :
    (s : Text)
    → begins_without is_whitespace s ≡ true
    → ends_without is_whitespace s ≡ true
    → trim s ≡ s
trim_id s b e = rw (drop_while_id is_whitespace s b) (drop_end_id is_whitespace s e)
