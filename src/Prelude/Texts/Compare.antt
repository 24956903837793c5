-- ===== src/Prelude/Texts/Compare.antt =====
-- `Ord` of Rust's `String`.
use Prim.Native.Nat.{compare, Ordering}
use mathlib.Core.List.{[], ◌∷◌}
use nivasa.Prelude.Texts.Split.{Text}

-- The order of `String`: by UTF-8 bytes, which is the order by code points.
abbrev pub cmp_text : Text → Text → Ordering
cmp_text [] [] = Ordering.eq
cmp_text [] (b ∷ t) = Ordering.lt
cmp_text (a ∷ s) [] = Ordering.gt
cmp_text (a ∷ s) (b ∷ t) = elim (compare a b) [
  | Ordering.eq ↦ cmp_text s t
  | Ordering.lt ↦ Ordering.lt
  | Ordering.gt ↦ Ordering.gt
]
