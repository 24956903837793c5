-- ===== src/Core/Modules/Sources.antt =====
-- The sources that a module imports from, and the providers of a dynamic module.
use nivasa.Prelude.{
  ◌==◌, if◌then◌else◌, ==_iff, Bool-cases, Option-cases, is_some, any, all, keep, ok-injective, ok,
  err, Text, mem, IsDistinct, lookup, any-sort_by, ℕ, ◌≡◌, refl, sym, ap, ◌∙◌, subst, ◌⊎◌, inl, inr,
  Bool, true, false, ◌&&◌, ◌||◌, not, none, some, List, [], ◌∷◌, ◌++◌, map, arith,
}
use nivasa.Core.Modules.{
  DynamicModule, ModuleEntry, ModuleRegistry, missing_import, push_missing, merged_metadata,
  global_module_ids, SourceList, add_source, add_imports, add_globals, import_sources_of,
  import_sources_by_id,
}

mem-snoc : (x y : ℕ) (xs : List ℕ) → mem x (xs ++ (y ∷ [])) ≡ (mem x xs || y == x)
mem-snoc x y [] = ground arith
mem-snoc x y (z ∷ xs) = ground (arith, mem-snoc x y xs)

IsDistinct-snoc :
    (xs : List ℕ) (y : ℕ) → IsDistinct xs → mem y xs ≡ false → IsDistinct (xs ++ (y ∷ []))
IsDistinct-snoc [] y d h = (refl, tt)
IsDistinct-snoc (x ∷ xs) y (n, d) h =
    (ground (arith, mem-snoc x y xs), IsDistinct-snoc xs y d (ground arith))

push_missing-IsDistinct :
    (ids known : List ℕ) → IsDistinct known → IsDistinct (push_missing ids known)
unfolding push_missing
push_missing-IsDistinct [] known d = d
push_missing-IsDistinct (id ∷ ids) known d = elim (Bool-cases (mem id known)) [
  | inl h ↦ rw h (push_missing-IsDistinct ids known d)
  | inr h ↦ rw h (push_missing-IsDistinct ids (known ++ (id ∷ [])) (IsDistinct-snoc known id d h))
]

mem-push_missing :
    (x : ℕ) (ids known : List ℕ) → mem x (push_missing ids known) ≡ (mem x known || mem x ids)
unfolding push_missing
mem-push_missing x [] known = ground arith
mem-push_missing x (id ∷ ids) known = elim (Bool-cases (mem id known)) [
  | inl h ↦ rw h (mem-push_missing x ids known ∙ known_already h (Bool-cases (id == x)))
  | inr h ↦ rw h (mem-push_missing x ids (known ++ (id ∷ [])) ∙ one_more)
]
  where
    known_already :
        mem id known ≡ true
        → ((id == x) ≡ true) ⊎ ((id == x) ≡ false)
        → (mem x known || mem x ids) ≡ (mem x known || (id == x || mem x ids))
    known_already h (inl e) =
        let k = subst (λ y. mem y known ≡ true) ((==_iff id x).0 e) h in ground arith
    known_already h (inr e) = rw e refl

    one_more : (mem x (known ++ (id ∷ [])) || mem x ids) ≡ (mem x known || (id == x || mem x ids))
    one_more = ground (arith, mem-snoc x id known)

-- The merged metadata of a dynamic module provides exactly what its metadata or the module itself
-- provides, and changes nothing else: imports, exports and the global mark stay. No provider is
-- listed twice when the metadata lists none twice.
pub merged_metadata_lem :
    (self : DynamicModule) (x : ℕ)
    → IsDistinct self.metadata.providers
    → IsDistinct (merged_metadata self).providers
      × (mem x (merged_metadata self).providers
          ≡ (mem x self.metadata.providers || mem x self.dynamic_providers))
      × ((merged_metadata self).imports ≡ self.metadata.imports)
      × ((merged_metadata self).exports ≡ self.metadata.exports)
      × ((merged_metadata self).is_global ≡ self.metadata.is_global)
unfolding merged_metadata
merged_metadata_lem self x d = (
  push_missing-IsDistinct self.dynamic_providers self.metadata.providers d,
  mem-push_missing x self.dynamic_providers self.metadata.providers,
  refl,
  refl,
  refl,
)

-- The set and the list agree, and the list has no identifier twice.
abbrev InStep : SourceList → Type 0
InStep acc = ((x : ℕ) → mem x acc.seen ≡ mem x acc.sources) × IsDistinct acc.sources

-- One source more.
add_source-InStep : (id : ℕ) (acc : SourceList) → InStep acc → InStep (add_source id acc)
add_source-InStep id acc (agree, d) = elim (Bool-cases (mem id acc.seen)) [
  | inl h ↦ rw h (agree, d)
  | inr h ↦ rw h (
    λ x. ground (arith, mem-snoc x id acc.sources, agree x),
    IsDistinct-snoc acc.sources id d (sym (agree id) ∙ h),
  )
]

mem-add_source :
    (x id : ℕ) (acc : SourceList)
    → InStep acc
    → mem x (add_source id acc).sources ≡ (mem x acc.sources || id == x)
mem-add_source x id acc (agree, d) = elim (Bool-cases (mem id acc.seen)) [
  | inl h ↦ rw h (there (sym (agree id) ∙ h) (Bool-cases (id == x)))
  | inr h ↦ rw h (mem-snoc x id acc.sources)
]
  where
    there :
        mem id acc.sources ≡ true
        → ((id == x) ≡ true) ⊎ ((id == x) ≡ false)
        → mem x acc.sources ≡ (mem x acc.sources || id == x)
    there h (inl e) =
        let k = subst (λ y. mem y acc.sources ≡ true) ((==_iff id x).0 e) h in ground arith
    there h (inr e) = ground arith

add_imports_lem :
    (self : ModuleRegistry) (module_name : Text) (ids : List ℕ) (acc new_acc : SourceList)
    → InStep acc
    → add_imports self module_name ids acc ≡ ok new_acc
    → InStep new_acc × ((x : ℕ) → mem x new_acc.sources ≡ (mem x acc.sources || mem x ids))
unfolding add_imports
add_imports_lem self module_name [] acc new_acc i e =
    subst (λ a. InStep a × ((x : ℕ) → mem x a.sources ≡ (mem x acc.sources || mem x [])))
      (ok-injective e) (i, λ x. ground arith)
add_imports_lem self module_name (id ∷ ids) acc new_acc i e =
    elim (Bool-cases (is_some (lookup id self))) [
      | inl h ↦
          let (j, m) =
            add_imports_lem self module_name ids (add_source id acc) new_acc
              (add_source-InStep id acc i) (rw h at e) in
          (j, λ x. ground (arith, m x, mem-add_source x id acc i))
      | inr h ↦ cc (rw h at e)
    ]

same_test :
    (global x module_id : ℕ)
    → (global == x && not (x == module_id)) ≡ (global == x && not (global == module_id))
same_test global x module_id = elim (Bool-cases (global == x)) [
  | inl e ↦
      subst
        (λ y. (global == y && not (y == module_id)) ≡ (global == y && not (global == module_id)))
        ((==_iff global x).0 e) refl
  | inr e ↦ rw e refl
]

add_global_lem :
    (module_id global : ℕ) (acc : SourceList)
    → InStep acc
    → InStep (if global == module_id then acc else add_source global acc)
      × ((x : ℕ)
          → mem x (if global == module_id then acc else add_source global acc).sources
            ≡ (mem x acc.sources || (global == x && not (x == module_id))))
add_global_lem module_id global acc i = elim (Bool-cases (global == module_id)) [
  | inl h ↦ rw h (i, λ x. ground (arith, h, same_test global x module_id))
  | inr h ↦ rw h (
    add_source-InStep global acc i,
    λ x. ground (arith, h, mem-add_source x global acc i, same_test global x module_id),
  )
]

add_globals_lem :
    (module_id : ℕ) (globals : List ℕ) (acc : SourceList)
    → InStep acc
    → InStep (add_globals module_id globals acc)
      × ((x : ℕ)
          → mem x (add_globals module_id globals acc).sources
            ≡ (mem x acc.sources || (mem x globals && not (x == module_id))))
unfolding add_globals
add_globals_lem module_id [] acc i = (i, λ x. ground arith)
add_globals_lem module_id (global ∷ globals) acc i =
    let (i', n) = add_global_lem module_id global acc i in
    let (j, m) =
      add_globals_lem module_id globals (if global == module_id then acc else add_source global acc)
        i' in
    (j, λ x. ground (arith, m x, n x))

-- All imports are registered, or the first that is not is reported.
add_imports_cases :
    (self : ModuleRegistry) (module_name : Text) (ids : List ℕ) (acc : SourceList)
    → ((new_acc : SourceList) × (add_imports self module_name ids acc ≡ ok new_acc)
        × (all (λ id. is_some (lookup id self)) ids ≡ true))
      ⊎ ((missing : ℕ) × (add_imports self module_name ids acc
            ≡ err (missing_import module_name missing))
          × (mem missing ids ≡ true)
          × (lookup missing self ≡ none))
unfolding add_imports
add_imports_cases self module_name [] acc = inl (acc, refl, refl)
add_imports_cases self module_name (id ∷ ids) acc = elim (Option-cases (lookup id self)) [
  | inl h ↦ rw h (inr (id, refl, ground arith, h))
  | inr (entry, h) ↦ elim (add_imports_cases self module_name ids (add_source id acc)) [
    | inl found ↦ rw h (inl found)
    | inr (missing, e, listed, absent) ↦ rw h (inr (missing, e, ground arith, absent))
  ]
]

-- Some global module of the registry has the identifier.
abbrev pub is_global_id : ModuleRegistry → ℕ → Bool
is_global_id self x =
    any (λ (item : ℕ × ModuleEntry). item.1.metadata.is_global && item.1.type_id == x) self

mem-map :
    {A : Type 0} (x : ℕ) (f : A → ℕ) (items : List A)
    → mem x (map f items) ≡ any (λ item. f item == x) items
mem-map x f [] = refl
mem-map x f (item ∷ items) = ap (λ b. f item == x || b) (mem-map x f items)

any-map :
    {A : Type 0} {B : Type 0} (p : B → Bool) (f : A → B) (items : List A)
    → any p (map f items) ≡ any (λ item. p (f item)) items
any-map p f [] = refl
any-map p f (item ∷ items) = ap (λ b. p (f item) || b) (any-map p f items)

any-keep :
    {A : Type 0} (p kept : A → Bool) (items : List A)
    → any p (keep kept items) ≡ any (λ item. kept item && p item) items
any-keep p kept [] = refl
any-keep p kept (item ∷ items) = elim (Bool-cases (kept item)) [
  | inl h ↦ rw h (ap (λ b. p item || b) (any-keep p kept items))
  | inr h ↦ rw h (any-keep p kept items)
]

mem-global_module_ids :
    (self : ModuleRegistry) (x : ℕ) → mem x (global_module_ids self) ≡ is_global_id self x
unfolding global_module_ids
mem-global_module_ids self x =
    mem-map x (λ (global : Text × ℕ). global.1) _
    ∙ any-sort_by (λ (global : Text × ℕ). global.1 == x) _ _
    ∙ any-map (λ (global : Text × ℕ). global.1 == x) _ _
    ∙ any-keep (λ (item : ℕ × ModuleEntry). item.1.type_id == x) _ self

-- A registered module has sources when all its imports are registered: each source once, and they
-- are its imports and the modules of the registry with the global mark, other than itself. Otherwise the answer is
-- the error that names the module and an import that is not registered.
pub import_sources_by_id_lem :
    (self : ModuleRegistry) (module_id : ℕ) (entry : ModuleEntry)
    → lookup module_id self ≡ some entry
    → ((sources : List ℕ) × (import_sources_by_id self module_id ≡ some (ok sources))
        × (all (λ id. is_some (lookup id self)) entry.metadata.imports ≡ true)
        × IsDistinct sources
        × ((x : ℕ)
            → mem x sources
              ≡ (mem x entry.metadata.imports || (is_global_id self x && not (x == module_id)))))
      ⊎ ((missing : ℕ) × (import_sources_by_id self module_id
            ≡ some (err (missing_import entry.type_name missing)))
          × (mem missing entry.metadata.imports ≡ true)
          × (lookup missing self ≡ none))
unfolding import_sources_by_id import_sources_of
import_sources_by_id_lem self module_id entry registered =
    elim (add_imports_cases self entry.type_name entry.metadata.imports bare) [
      | inr (missing, e, listed, absent) ↦
          inr (missing, rw (registered, import_sources_by_id) (rw e refl), listed, absent)
      | inl (imported, e, complete) ↦
          let (i, m) =
            add_imports_lem self entry.type_name entry.metadata.imports bare imported
              ((λ x. refl), tt) e in
          let ((agree, d), n) = add_globals_lem module_id (global_module_ids self) imported i in
          inl (
            (add_globals module_id (global_module_ids self) imported).sources,
            rw (registered, import_sources_by_id) (rw e refl),
            complete,
            d,
            λ x.
                n x
                ∙ ap (λ b. b || (mem x (global_module_ids self) && not (x == module_id))) (m x)
                ∙ ap (λ b. mem x entry.metadata.imports || (b && not (x == module_id)))
                    (mem-global_module_ids self x),
          )
    ]
  where
    bare : SourceList
    bare = record { seen = []; sources = [] }
