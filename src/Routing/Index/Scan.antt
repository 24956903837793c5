-- ===== src/Routing/Index/Scan.antt =====
-- Searching the candidates of the index finds what a scan of the whole table finds.
use nivasa.Prelude.{
  first_some, Bool-cases, get_elem?, ℕ, suc, ◌+◌, ◌≡◌, refl, ap, inl, inr, Bool, false, Option,
  none, some, List, [], ◌∷◌, arith,
}
use nivasa.Routing.Version.{find_map}
use nivasa.Routing.Index.Candidates.{indices_of}

module _ {ℓ κ} {A : Type ℓ} {B : Type κ} where
  pub find_map-indices_of :
      (at_index : ℕ → Option B) (at_element : A → Option B) (p : A → Bool) (index : ℕ) (xs : List A)
      → ((k : ℕ) (x : A) → get_elem? xs k ≡ some x → at_index (k + index) ≡ at_element x)
      → ((x : A) → p x ≡ false → at_element x ≡ none)
      → find_map at_index (indices_of p index xs) ≡ find_map at_element xs
  unfolding indices_of
  find_map-indices_of at_index at_element p index [] agree skip = refl
  find_map-indices_of at_index at_element p index (x ∷ xs) agree skip =
      let ih = find_map-indices_of at_index at_element p (suc index) xs tail skip in
      elim (Bool-cases (p x)) [
        | inl e ↦ rw (e, head) (ap (first_some (at_element x)) ih)
        | inr e ↦ rw (e, skip x e) ih
      ]
    where
      head : at_index index ≡ at_element x
      head = let e : 0 + index ≡ index = omega arith in rw e at (agree 0 x refl)

      tail : (k : ℕ) (y : A) → get_elem? xs k ≡ some y → at_index (k + suc index) ≡ at_element y
      tail k y h =
          let e : suc k + index ≡ k + suc index = omega arith in rw e at (agree (suc k) y h)
