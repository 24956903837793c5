-- ===== src/Prelude/Texts/Maps.antt =====
-- Maps with texts as keys: `HashMap<String, _>` and `BTreeMap<String, _>` as association lists.
use mathlib.Core.Path.{◌≡◌, refl, ap, ◌∙◌}
use mathlib.Core.Logic.{inl, inr}
use mathlib.Core.Bool.{false}
use mathlib.Core.List.{List, [], ◌∷◌}
use mathlib.Core.Option.{Option, none, some}
use native.Mathlib.Omega.{arith}
use nivasa.Prelude.Tests.{if◌then◌else◌, Bool-cases}
use nivasa.Prelude.Texts.Split.{Text, text_eq, text_eq_iff, text_eq_refl}

module _ {ℓ} {A : Type ℓ} where
  -- `get` with a text.
  abbrev pub get_text : Text → List (Text × A) → Option A
  get_text k [] = none
  get_text k ((j, a) ∷ m) = if text_eq j k then some a else get_text k m

  -- `insert` with a text.
  abbrev pub put_text : Text → A → List (Text × A) → List (Text × A)
  put_text k a [] = (k, a) ∷ []
  put_text k a ((j, b) ∷ m) = if text_eq j k then (k, a) ∷ m else (j, b) ∷ put_text k a m

  pub get_text-put_text :
      (k : Text) (a : A) (m : List (Text × A)) → get_text k (put_text k a m) ≡ some a
  get_text-put_text k a [] = ground (arith, text_eq_refl k)
  get_text-put_text k a ((j, b) ∷ m) = ground (arith, text_eq_refl k, get_text-put_text k a m)

  -- Another key keeps its value.
  pub get_text-put_text_other :
      (k j : Text) (a : A) (m : List (Text × A))
      → text_eq k j ≡ false
      → get_text j (put_text k a m) ≡ get_text j m
  get_text-put_text_other k j a [] h = ground arith
  get_text-put_text_other k j a ((i, b) ∷ m) h = elim (Bool-cases (text_eq i k)) [
    | inl e ↦ rw e (rw h (rw (ap (λ t. text_eq t j) ((text_eq_iff i k).0 e) ∙ h) refl))
    | inr e ↦ rw e (ground (arith, get_text-put_text_other k j a m h))
  ]
