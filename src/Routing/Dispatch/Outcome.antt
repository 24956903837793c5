-- ===== src/Routing/Dispatch/Outcome.antt =====
-- What `RouteDispatchSelection::dispatch` and `resolve_match` answer.
use nivasa.Prelude.{
  Bool-cases, Option-cases, is_empty, find, All, Text, text_eq_refl, ◌≡◌, refl, sym, subst, ◌≢◌,
  ◌⊎◌, inl, inr, Bool, true, false, none, some, List, [], ◌∷◌, arith,
}
use mathlib.Core.HLevel.{⊥_prop}
use mathlib.Core.Logic.Or
use mathlib.Core.Logic.{∥∥₁_elim, ∥∥₁_map}
use mathlib.Core.List.{
  Mem, mem-cons_self, mem-cons_of_mem, not-mem-nil, mem-cons, exists_of_mem-map,
}
use nivasa.Routing.Method.{RouteMethod, other, all_methods, as_str, method_matches}
use nivasa.Routing.Dispatch.{RouteDispatchEntry}
use nivasa.Routing.Dispatch.Methods.{allowed_methods_lem}
use nivasa.Routing.Dispatch.Selection.{
  RouteDispatchSelection, matched, method_not_allowed, not_found, allowed_methods, selected_entry,
  dispatch_selection,
}

method_matches_self : (method : RouteMethod) → method_matches method (as_str method) ≡ true
unfolding method_matches as_str
method_matches_self all_methods = refl
method_matches_self (other text) = text_eq_refl text
method_matches_self method = text_eq_refl (as_str method)

module _ {ℓ} {A : Type ℓ} (p : A → Bool) where
  find-some : (xs : List A) {x : A} → find p xs ≡ some x → Mem x xs × (p x ≡ true)
  find-some [] e = cc
  find-some (y ∷ ys) {x} e = elim (Bool-cases (p y)) [
    | inl h ↦
        let same : y ≡ x = ground arith in
        (subst (λ z. Mem z (y ∷ ys)) same mem-cons_self, rw same at h)
    | inr h ↦ let (m, q) = find-some ys (ground arith) in (mem-cons_of_mem y m, q)
  ]

  find-none : (xs : List A) → find p xs ≡ none → All (λ x. p x ≡ false) xs
  find-none [] e = tt
  find-none (y ∷ ys) e = elim (Bool-cases (p y)) [
    | inl h ↦ cc (rw h at e)
    | inr h ↦ (h, find-none ys (ground arith))
  ]

  find_of_All : (xs : List A) → All (λ x. p x ≡ false) xs → find p xs ≡ none
  find_of_All [] h = refl
  find_of_All (y ∷ ys) (h, hs) = rw h (find_of_All ys hs)

  find-none-not-mem : (xs : List A) {x : A} → find p xs ≡ none → Mem x xs → p x ≡ true → ⊥
  find-none-not-mem [] e m h = not-mem-nil m
  find-none-not-mem (y ∷ ys) {x} e m h =
      let (miss, later) = find-none (y ∷ ys) e in
      Or.elim ⊥_prop (mem-cons.0 m) (λ same. clash (rw same at h) miss)
        (λ n. find-none-not-mem ys (find_of_All ys later) n h)
    where
      clash : p y ≡ true → p y ≡ false → ⊥
      clash t f = cc

is_empty_cases {ℓ} :
    {A : Type ℓ} (xs : List A)
    → ((is_empty xs ≡ true) × (xs ≡ [])) ⊎ ((is_empty xs ≡ false) × (xs ≢ []))
is_empty_cases [] = inl (refl, refl)
is_empty_cases (x ∷ xs) = inr (refl, (λ e. cc))

module _ {ℓ} {T : Type ℓ} where
  takes :
      (self : RouteDispatchSelection T) (allowed : Text)
      → Mem allowed (allowed_methods self)
      → ∥ (
          (entry : RouteDispatchEntry T) × Mem entry self.entries
          × (method_matches entry.method allowed ≡ true)) ∥₁
  takes self allowed m =
      ∥∥₁_map (exists_of_mem-map ((allowed_methods_lem self allowed).1.0 m))
        λ (entry, listed, same). (
          entry,
          listed,
          subst (λ t. method_matches entry.method t ≡ true) same (method_matches_self entry.method),
        )

  not-mem-allowed_methods :
      (self : RouteDispatchSelection T) (method : Text)
      → selected_entry self method ≡ none
      → ¬ Mem method (allowed_methods self)
  unfolding selected_entry
  not-mem-allowed_methods self method missing m =
      ∥∥₁_elim (takes self method m) ⊥_prop
        λ (entry, listed, h). find-none-not-mem _ self.entries missing listed h

  -- A selection answers in one of three ways. It matches a selected route that takes the method; or
  -- nothing was selected and it finds nothing; or routes were selected and it refuses the method,
  -- naming its own path and allowed methods among which the refused one is not.
  pub dispatch_selection_lem :
      (self : RouteDispatchSelection T) (method : Text)
      → ((entry : RouteDispatchEntry T) × (dispatch_selection self method ≡ matched entry)
          × Mem entry self.entries
          × (method_matches entry.method method ≡ true))
        ⊎ (((dispatch_selection self method ≡ not_found) × (self.entries ≡ []))
            ⊎ ((dispatch_selection self method
                  ≡ method_not_allowed self.path (allowed_methods self))
                × (self.entries ≢ [])
                × (¬ Mem method (allowed_methods self))))
  unfolding dispatch_selection selected_entry
  dispatch_selection_lem self method = elim (Option-cases (selected_entry self method)) [
    | inr (entry, e) ↦
        let (m, h) = found self.entries e in inl (entry, rw (e, dispatch_selection) refl, m, h)
    | inl missing ↦
        let absent = not-mem-allowed_methods self method missing in
        elim (is_empty_cases self.entries) [
          | inl (h, e) ↦ inr (inl (rw (missing, dispatch_selection) (rw h refl), e))
          | inr (h, n) ↦ inr (inr (rw (missing, dispatch_selection) (rw h refl), n, absent))
        ]
  ]
    where
      found :
          (entries : List (RouteDispatchEntry T)) {entry : RouteDispatchEntry T}
          → find (λ x. method_matches x.method method) entries ≡ some entry
          → Mem entry entries × (method_matches entry.method method ≡ true)
      found entries e = find-some _ entries e

  -- Every method that a refusal names is one that the same selection matches.
  pub method_not_allowed_lem :
      (self : RouteDispatchSelection T) (method path : Text) (methods : List Text) (allowed : Text)
      → dispatch_selection self method ≡ method_not_allowed path methods
      → Mem allowed methods
      → ∥ ((entry : RouteDispatchEntry T) × (dispatch_selection self allowed ≡ matched entry)) ∥₁
  unfolding dispatch_selection selected_entry
  method_not_allowed_lem self method path methods allowed e m =
      ∥∥₁_map (takes self allowed (subst (Mem allowed) (sym (names e)) m)) λ (entry, listed, h).
        elim (Option-cases (selected_entry self allowed)) [
          | inr (found, f) ↦ (found, rw (f, dispatch_selection) refl)
          | inl f ↦ absurd (find-none-not-mem _ self.entries f listed h)
        ]
    where
      names :
          dispatch_selection self method ≡ method_not_allowed path methods
          → allowed_methods self ≡ methods
      names h = ground arith
