-- ===== src/Core/Modules/Total.antt =====
-- The fuel of `exported_surface_for` is enough.
use nivasa.Prelude.{
  Bool-cases, Option-cases, is_some, length, Result-cases, Text, mem, remove_set, remove_set_head,
  lookup, keys, mem-keys, count_outside, count_outside-lt, done, and_run-eq-done, and_run-ne-none,
  ℕ, zero, suc, ◌<◌, ◌≡◌, refl, sym, ap, ◌∙◌, subst, ◌≢◌, inl, inr, true, false, none, List, [],
  ◌∷◌, arith,
}
use nivasa.Core.Modules.{ModuleEntry, ModuleRegistry}
use nivasa.Core.Modules.Surface.{
  Surfaces, no_surfaces, Walked, import_surfaces, collect_exports, close_surface, open_surface,
  public_surface_for, exported_surface_for,
}
use nivasa.Core.Modules.Exports.{done-injective}

-- A run that succeeds leaves the same modules open.
abbrev KeepsOpen : (ℕ → Surfaces → Walked (List ℕ)) → Type 0
KeepsOpen go =
    (current : ℕ) (walk : Surfaces) (found : Surfaces × List ℕ)
    → go current walk ≡ done found
    → found.0.visiting ≡ walk.visiting

outside_none : (self : ModuleRegistry) → count_outside (keys self) [] < suc (length self)
outside_none [] = omega arith
outside_none (entry ∷ self) = omega (arith, outside_none self)

module _ (self : ModuleRegistry) where
  import_surfaces-visiting :
      (go : ℕ → Surfaces → Walked (List ℕ)) (module_name : Text) (ids : List ℕ) (walk : Surfaces)
      (found : Surfaces × List (List ℕ))
      → KeepsOpen go
      → import_surfaces self go module_name ids walk ≡ done found
      → found.0.visiting ≡ walk.visiting
  unfolding import_surfaces
  import_surfaces-visiting go module_name [] walk found keeps e =
      sym (ap (λ (f : Surfaces × List (List ℕ)). f.0.visiting) (done-injective {a = (walk, [])} e))
  import_surfaces-visiting go module_name (id ∷ ids) walk found keeps e =
      elim (Option-cases (lookup id self)) [
        | inl h ↦ cc (rw (h, import_surfaces) at e)
        | inr (imported, h) ↦
            let (first_found, run, tail) =
              and_run-eq-done (go id walk) _ (rw (h, import_surfaces) at e) in
            let (rest, run_rest, last_step) = and_run-eq-done _ _ tail in
            sym (ap (λ (f : Surfaces × List (List ℕ)). f.0.visiting) (done-injective last_step))
            ∙ import_surfaces-visiting go module_name ids first_found.0 rest keeps run_rest
            ∙ keeps id walk first_found run
      ]

  close_surface-visiting :
      (current : ℕ) (entry : ModuleEntry) (walked : Surfaces × List (List ℕ))
      (found : Surfaces × List ℕ)
      → close_surface current entry walked ≡ done found
      → found.0.visiting ≡ remove_set current walked.0.visiting
  unfolding close_surface
  close_surface-visiting current entry (walk, imported) found e =
      elim (Result-cases (
        collect_exports entry.type_name entry.metadata.providers imported entry.metadata.exports
          [])) [
            | inr (failure, h) ↦ cc (rw (h, close_surface) at e)
            | inl (surface, h) ↦ sym (
                ap (λ (f : Surfaces × List ℕ). f.0.visiting)
                  (done-injective (rw (h, close_surface) at e)))
          ]

  public_surface_for-KeepsOpen : (fuel : ℕ) → KeepsOpen (public_surface_for self fuel)
  unfolding public_surface_for open_surface
  public_surface_for-KeepsOpen zero current walk found e = cc
  public_surface_for-KeepsOpen (suc fuel) current walk found e =
      elim (Option-cases (lookup current walk.cache)) [
        | inr (cached, h) ↦ sym (
            ap (λ (f : Surfaces × List ℕ). f.0.visiting)
              (done-injective {a = (walk, cached)} (rw (h, public_surface_for) at e)))
        | inl h ↦ elim (Option-cases (lookup current self)) [
          | inl k ↦ cc (rw (k, public_surface_for) at (rw (h, public_surface_for) at e))
          | inr (entry, k) ↦
              opened entry (rw (k, public_surface_for) at (rw (h, public_surface_for) at e))
                (public_surface_for-KeepsOpen fuel)
        ]
      ]
    where
      opened :
          (entry : ModuleEntry)
          → open_surface self (public_surface_for self fuel) current entry walk ≡ done found
          → KeepsOpen (public_surface_for self fuel)
          → found.0.visiting ≡ walk.visiting
      opened entry f ih = elim (Bool-cases (mem current walk.visiting)) [
        | inl h ↦ cc (rw (h, open_surface) at f)
        | inr h ↦
            let (walked, run, closing) = and_run-eq-done _ _ (rw (h, open_surface) at f) in
            close_surface-visiting current entry walked found closing
            ∙ ap (remove_set current) (
                import_surfaces-visiting (public_surface_for self fuel) entry.type_name
                  entry.metadata.imports _ walked ih run)
            ∙ remove_set_head current walk.visiting h
      ]

  import_surfaces_total :
      (go : ℕ → Surfaces → Walked (List ℕ)) (module_name : Text) (ids open_ids : List ℕ)
      (walk : Surfaces)
      → KeepsOpen go
      → ((id : ℕ) (w : Surfaces)
          → is_some (lookup id self) ≡ true
          → w.visiting ≡ open_ids
          → go id w ≢ none)
      → walk.visiting ≡ open_ids
      → import_surfaces self go module_name ids walk ≢ none
  unfolding import_surfaces
  import_surfaces_total go module_name [] open_ids walk keeps total e = λ h. cc
  import_surfaces_total go module_name (id ∷ ids) open_ids walk keeps total e =
      elim (Option-cases (lookup id self)) [
        | inl h ↦ rw (h, import_surfaces) (λ g. cc)
        | inr (imported, h) ↦
            rw (h, import_surfaces)
              (and_run-ne-none (go id walk) _ (total id walk (rw h refl) e) λ found run.
                and_run-ne-none (import_surfaces self go module_name ids found.0) _
                  (import_surfaces_total go module_name ids open_ids found.0 keeps total
                    (keeps id walk found run ∙ e))
                  λ rest run_rest g. cc)
      ]

  close_surface_total :
      (current : ℕ) (entry : ModuleEntry) (walked : Surfaces × List (List ℕ))
      → close_surface current entry walked ≢ none
  unfolding close_surface
  close_surface_total current entry (walk, imported) =
      elim (Result-cases (
        collect_exports entry.type_name entry.metadata.providers imported entry.metadata.exports
          [])) [
            | inr (failure, h) ↦ rw (h, close_surface) (λ g. cc)
            | inl (surface, h) ↦ rw (h, close_surface) (λ g. cc)
          ]

  public_surface_for_total :
      (fuel current : ℕ) (walk : Surfaces)
      → is_some (lookup current self) ≡ true
      → count_outside (keys self) walk.visiting < fuel
      → public_surface_for self fuel current walk ≢ none
  unfolding public_surface_for open_surface
  public_surface_for_total zero current walk registered bound = absurd (omega (arith, bound))
  public_surface_for_total (suc fuel) current walk registered bound =
      elim (Option-cases (lookup current walk.cache)) [
        | inr (cached, h) ↦ rw (h, public_surface_for) (λ g. cc)
        | inl h ↦ elim (Option-cases (lookup current self)) [
          | inl k ↦ cc (rw k at registered)
          | inr (entry, k) ↦ elim (Bool-cases (mem current walk.visiting)) [
            | inl v ↦
                rw (h, public_surface_for)
                  (rw (k, public_surface_for) (rw (v, open_surface) (λ g. cc)))
            | inr v ↦
                rw (h, public_surface_for)
                  (rw (k, public_surface_for)
                    (rw (v, open_surface)
                      (and_run-ne-none _ _
                        (import_surfaces_total (public_surface_for self fuel) entry.type_name
                          entry.metadata.imports (current ∷ walk.visiting) _
                          (public_surface_for-KeepsOpen fuel)
                          (λ id w known same.
                            public_surface_for_total fuel id w known (smaller v w.visiting same))
                          refl)
                        λ walked run. close_surface_total current entry walked)))
          ]
        ]
      ]
    where
      smaller :
          mem current walk.visiting ≡ false
          → (open_ids : List ℕ) → open_ids ≡ current ∷ walk.visiting
          → count_outside (keys self) open_ids < fuel
      smaller v open_ids same =
          subst (λ ids. count_outside (keys self) ids < fuel) (sym same)
            (omega (
              arith,
              bound,
              count_outside-lt (keys self) walk.visiting current
                  (mem-keys current self ∙ registered) v,
            ))

  -- `exported_surface_for` terminates with a surface or an error for every registered module: with
  -- one unit of fuel more than modules it has an answer.
  pub exported_surface_for_total :
      (module_id : ℕ)
      → is_some (lookup module_id self) ≡ true
      → exported_surface_for self module_id ≢ none
  unfolding exported_surface_for
  exported_surface_for_total module_id registered =
      and_run-ne-none _ _
        (public_surface_for_total (suc (length self)) module_id no_surfaces registered
          (outside_none self))
        (λ found run g. cc)
