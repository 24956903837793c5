-- ===== src/Routing/Registry/Invariant.antt =====
-- The invariant of `RouteRegistry`, and what `register` does on both branches.
use nivasa.Prelude.{
  Bool-cases, any, ok-injective, ok, err, Text, text_eq_iff, sort_by, IsSortedBy, IsPreorder,
  sort_by-IsSortedBy, ◌≡◌, refl, sym, ◌∙◌, subst, ◌↔◌, ◌⊎◌, inl, inr, true, false, [], ◌∷◌, ◌++◌,
  map,
}
use mathlib.Core.List.{Perm, Mem, Nodup, Nodup-nil}
use nivasa.Routing.Pattern.{RoutePattern, duplicate_route, pattern_path}
use nivasa.Routing.Pattern.Order.{cmp_specificity-IsPreorder}
use nivasa.Routing.Index.{rebuild, rebuild_from}
use nivasa.Routing.Table.{sort_by-push_back-perm, Nodup-push, any_iff-Mem}
use nivasa.Routing.Registry.{
  RouteEntry, RouteRegistry, new, cmp_entries, entry_first_segment, has_path, register,
  rebuild_first_segment_index,
}

abbrev pub entry_path {ℓ} : {T : Type ℓ} → RouteEntry T → Text
entry_path entry = pattern_path entry.route

-- The table is sorted by specificity, the index is that of the table, and no two routes share a
-- canonical path.
pub record IsValid {ℓ} {T : Type ℓ} (self : RouteRegistry T) : Type ℓ where
  pub sorted : IsSortedBy cmp_entries self.routes
  pub indexed : self.first_segment_index ≡ rebuild entry_first_segment self.routes
  pub unique : Nodup (map entry_path self.routes)

module _ {ℓ} {T : Type ℓ} where
  pub cmp_entries-IsPreorder : IsPreorder (cmp_entries {T = T})
  cmp_entries-IsPreorder = record {
    total = λ x y. cmp_specificity-IsPreorder.total x.route y.route;
    trans = λ x y z. cmp_specificity-IsPreorder.trans x.route y.route z.route;
  }

  abbrev pub registered : RouteRegistry T → RoutePattern → T → RouteRegistry T
  registered self route value = rebuild_first_segment_index (record self {
    routes = sort_by cmp_entries (self.routes ++ (record { route = route; value = value } ∷ []));
  })

  pub register_fresh :
      (self : RouteRegistry T) (route : RoutePattern) (value : T)
      → any (has_path (pattern_path route)) self.routes ≡ false
      → register self route value ≡ ok (registered self route value)
  unfolding register
  register_fresh self route value h = rw h refl

  -- Registering a route whose path is new keeps the invariant, keeps the old entries and adds the
  -- new one; the only error is a duplicate, exactly when the path is there already.
  pub register_lem :
      (self : RouteRegistry T) (route : RoutePattern) (value : T)
      → IsValid self
      → ((next : RouteRegistry T) × (register self route value ≡ ok next)
          × IsValid next
          × Perm next.routes (record { route = route; value = value } ∷ self.routes)
          × (¬ Mem (pattern_path route) (map entry_path self.routes)))
        ⊎ ((register self route value ≡ err (duplicate_route (pattern_path route)))
            × Mem (pattern_path route) (map entry_path self.routes))
  unfolding register
  register_lem self route value valid =
      elim (Bool-cases (any (has_path (pattern_path route)) self.routes)) [
        | inl taken ↦ inr (rw taken refl, scan.0 taken)
        | inr fresh ↦ inl (
          registered self route value,
          rw fresh refl,
          record {
            sorted = sort_by-IsSortedBy cmp_entries-IsPreorder _;
            indexed = refl;
            unique =
                Nodup-push entry_path (pattern_path route) (has_path (pattern_path route))
                  (λ x e. (text_eq_iff (entry_path x) (pattern_path route)).1 e) cmp_entries
                  self.routes (record { route = route; value = value }) refl fresh valid.unique;
          },
          sort_by-push_back-perm cmp_entries self.routes _,
          λ m. cc (scan.1 m),
        )
      ]
    where
      scan :
          (any (has_path (pattern_path route)) self.routes ≡ true)
          ↔ Mem (pattern_path route) (map entry_path self.routes)
      scan =
          any_iff-Mem entry_path (pattern_path route) (has_path (pattern_path route))
            (λ x. text_eq_iff (entry_path x) (pattern_path route)) self.routes

  -- The invariant holds of an empty registry and is kept by `register`.
  pub new-IsValid : IsValid (new {T = T})
  unfolding rebuild rebuild_from
  new-IsValid = record { sorted = tt; indexed = refl; unique = Nodup-nil }

  pub register-IsValid :
      (self next : RouteRegistry T) (route : RoutePattern) (value : T)
      → IsValid self
      → register self route value ≡ ok next
      → IsValid next
  register-IsValid self next route value valid e = elim (register_lem self route value valid) [
    | inl (after, f, kept, _, _) ↦ subst IsValid (ok-injective (sym f ∙ e)) kept
    | inr (f, _) ↦ cc
  ]
