-- ===== src/Core/Modules/Exports.antt =====
-- The surface of a module is its exports.
use nivasa.Prelude.{
  some-injective, ◌==◌, if◌then◌else◌, ==_iff, Bool-cases, Option-cases, length, pop, any,
  Result-cases, ok-injective, ok, Text, mem, insert_set, remove_set, lookup, insert_map,
  lookup-insert_map, Run, done, and_run-eq-done, ℕ, zero, suc, ◌≡◌, sym, ◌∙◌, subst, ◌⊎◌, inl, inr,
  true, false, ◌||◌, some, List, [], ◌∷◌, arith,
}
use nivasa.Core.Modules.{ModuleEntry, ModuleRegistry, ModuleRegistryError}
use nivasa.Core.Modules.Surface.{
  Surfaces, no_surfaces, Walked, import_surfaces, collect_exports, close_surface, open_surface,
  public_surface_for, exported_surface_for,
}

mem-insert_set : (x y : ℕ) (xs : List ℕ) → mem x (insert_set y xs) ≡ (mem x xs || y == x)
mem-insert_set x y xs = elim (Bool-cases (mem y xs)) [
  | inl h ↦ rw h (known h (Bool-cases (y == x)))
  | inr h ↦ rw h (ground arith)
]
  where
    known :
        mem y xs ≡ true → ((y == x) ≡ true) ⊎ ((y == x) ≡ false) → mem x xs ≡ (mem x xs || y == x)
    known h (inl e) = let k = subst (λ z. mem z xs ≡ true) ((==_iff y x).0 e) h in ground arith
    known h (inr e) = ground arith

collect_exports_lem :
    (module_name : Text) (provided : List ℕ) (imported : List (List ℕ)) (exports acc : List ℕ)
    (surface : List ℕ) (x : ℕ)
    → collect_exports module_name provided imported exports acc ≡ ok surface
    → mem x surface ≡ (mem x acc || mem x exports)
unfolding collect_exports
collect_exports_lem module_name provided imported [] acc surface x e =
    subst (λ s. mem x s ≡ (mem x acc || false)) (ok-injective e) (ground arith)
collect_exports_lem module_name provided imported (exported ∷ exports) acc surface x e =
    elim (Bool-cases (mem exported provided || any (λ found. mem exported found) imported)) [
      | inr h ↦ cc (rw h at e)
      | inl h ↦
          let ih =
            collect_exports_lem module_name provided imported exports (insert_set exported acc)
              surface x (rw h at e) in
          ground (arith, ih, mem-insert_set x exported acc)
    ]

pub done-injective :
    {A : Type 0} {a b : A} → ◌≡◌ {A = Run ModuleRegistryError A} (done a) (done b) → a ≡ b
done-injective e = cc

module _ (self : ModuleRegistry) where
  -- The surface is that of the module: the same members as its exports.
  abbrev pub IsSurface : ℕ → List ℕ → Type 0
  IsSurface current surface =
      (entry : ModuleEntry) × (lookup current self ≡ some entry)
      × ((x : ℕ) → mem x surface ≡ mem x entry.metadata.exports)

  abbrev HoldsSurfaces : Surfaces → Type 0
  HoldsSurfaces walk =
      (current : ℕ) (surface : List ℕ)
      → lookup current walk.cache ≡ some surface
      → IsSurface current surface

  abbrev IsSound : (ℕ → Surfaces → Walked (List ℕ)) → Type 0
  IsSound go =
      (current : ℕ) (walk : Surfaces) (found : Surfaces × List ℕ)
      → HoldsSurfaces walk
      → go current walk ≡ done found
      → HoldsSurfaces found.0 × IsSurface current found.1

  import_surfaces_lem :
      (go : ℕ → Surfaces → Walked (List ℕ)) (module_name : Text) (ids : List ℕ) (walk : Surfaces)
      (found : Surfaces × List (List ℕ))
      → IsSound go
      → HoldsSurfaces walk
      → import_surfaces self go module_name ids walk ≡ done found
      → HoldsSurfaces found.0
  unfolding import_surfaces
  import_surfaces_lem go module_name [] walk found sound holds e =
      subst (λ (f : Surfaces × List (List ℕ)). HoldsSurfaces f.0) (done-injective e) holds
  import_surfaces_lem go module_name (id ∷ ids) walk found sound holds e =
      elim (Option-cases (lookup id self)) [
        | inl h ↦ cc (rw (h, import_surfaces) at e)
        | inr (imported, h) ↦
            let (first_found, run, tail) =
              and_run-eq-done (go id walk) _ (rw (h, import_surfaces) at e) in
            let (rest, run_rest, last_step) = and_run-eq-done _ _ tail in
            let held =
              import_surfaces_lem go module_name ids first_found.0 rest sound
                (sound id walk first_found holds run).0 run_rest in
            subst (λ (f : Surfaces × List (List ℕ)). HoldsSurfaces f.0) (done-injective last_step)
              held
      ]

  insert_map-HoldsSurfaces :
      (current : ℕ) (surface : List ℕ) (walk : Surfaces)
      → IsSurface current surface
      → HoldsSurfaces walk
      → (key : ℕ) (found : List ℕ) → lookup key (insert_map current surface walk.cache) ≡ some found
      → IsSurface key found
  insert_map-HoldsSurfaces current surface walk own holds key found e =
      elim (Bool-cases (current == key)) [
        | inl h ↦
            subst (λ k. IsSurface k found) ((==_iff current key).0 h)
              (subst (IsSurface current) (some-injective (rw h at (inserted e))) own)
        | inr h ↦ holds key found (rw h at (inserted e))
      ]
    where
      inserted :
          lookup key (insert_map current surface walk.cache) ≡ some found
          → (if current == key then some surface else lookup key walk.cache) ≡ some found
      inserted f = sym (lookup-insert_map current key surface walk.cache) ∙ f

  close_surface_lem :
      (current : ℕ) (entry : ModuleEntry) (walked : Surfaces × List (List ℕ))
      (found : Surfaces × List ℕ)
      → lookup current self ≡ some entry
      → HoldsSurfaces walked.0
      → close_surface current entry walked ≡ done found
      → HoldsSurfaces found.0 × IsSurface current found.1
  unfolding close_surface
  close_surface_lem current entry (walk, imported) found registered holds e =
      elim (Result-cases (
        collect_exports entry.type_name entry.metadata.providers imported entry.metadata.exports
          [])) [
            | inr (failure, h) ↦ cc (rw (h, close_surface) at e)
            | inl (surface, h) ↦
                let closed : Surfaces = record {
                  cache = insert_map current surface walk.cache;
                  visiting = remove_set current walk.visiting;
                  path = pop walk.path;
                } in
                let own : IsSurface current surface = (
                  entry,
                  registered,
                  λ x.
                      collect_exports_lem entry.type_name entry.metadata.providers imported
                        entry.metadata.exports [] surface x h,
                ) in
                subst (λ (f : Surfaces × List ℕ). HoldsSurfaces f.0 × IsSurface current f.1)
                  (done-injective {a = (closed, surface)} (rw (h, close_surface) at e))
                  (insert_map-HoldsSurfaces current surface walk own holds, own)
          ]

  open_surface_lem :
      (go : ℕ → Surfaces → Walked (List ℕ)) (current : ℕ) (entry : ModuleEntry) (walk : Surfaces)
      (found : Surfaces × List ℕ)
      → IsSound go
      → lookup current self ≡ some entry
      → HoldsSurfaces walk
      → open_surface self go current entry walk ≡ done found
      → HoldsSurfaces found.0 × IsSurface current found.1
  unfolding open_surface
  open_surface_lem go current entry walk found sound registered holds e =
      elim (Bool-cases (mem current walk.visiting)) [
        | inl h ↦ cc (rw (h, open_surface) at e)
        | inr h ↦
            let (walked, run, closing) = and_run-eq-done _ _ (rw (h, open_surface) at e) in
            close_surface_lem current entry walked found registered
              (import_surfaces_lem go entry.type_name entry.metadata.imports _ walked sound holds
                run)
              closing
      ]

  public_surface_for-IsSound : (fuel : ℕ) → IsSound (public_surface_for self fuel)
  unfolding public_surface_for
  public_surface_for-IsSound zero current walk found holds e = cc
  public_surface_for-IsSound (suc fuel) current walk found holds e =
      elim (Option-cases (lookup current walk.cache)) [
        | inr (cached, h) ↦
            subst (λ (f : Surfaces × List ℕ). HoldsSurfaces f.0 × IsSurface current f.1)
              (done-injective {a = (walk, cached)} (rw (h, public_surface_for) at e))
              (holds, holds current cached h)
        | inl h ↦ elim (Option-cases (lookup current self)) [
          | inl k ↦ cc (rw (k, public_surface_for) at (rw (h, public_surface_for) at e))
          | inr (entry, k) ↦
              open_surface_lem (public_surface_for self fuel) current entry walk found
                (public_surface_for-IsSound fuel) k holds
                (rw (k, public_surface_for) at (rw (h, public_surface_for) at e))
        ]
      ]

  -- When the surface of a module is computed without an error, the module is registered, and the
  -- surface has exactly its exports.
  pub exported_surface_for_lem :
      (module_id : ℕ) (surface : List ℕ)
      → exported_surface_for self module_id ≡ done surface
      → IsSurface module_id surface
  unfolding exported_surface_for
  exported_surface_for_lem module_id surface e =
      let (found, run, last_step) =
        and_run-eq-done (public_surface_for self (suc (length self)) module_id no_surfaces) _ e in
      subst (IsSurface module_id) (done-injective last_step)
        (public_surface_for-IsSound (suc (length self)) module_id no_surfaces found
          (λ current s h. cc) run).1
