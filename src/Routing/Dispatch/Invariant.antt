-- ===== src/Routing/Dispatch/Invariant.antt =====
-- The invariant of `RouteDispatchRegistry`, and what `register_versioned` does on both branches.
use nivasa.Prelude.{
  and_then, Bool-cases, any, ok-injective, ok, err, Text, text_eq_iff, sort_by, IsSortedBy,
  IsPreorder, sort_by-IsSortedBy, ◌≡◌, refl, sym, ◌∙◌, subst, ◌↔◌, ◌⊎◌, inl, inr, Bool, true,
  Option, none, some, [], ◌∷◌, ◌++◌, map, arith,
}
use mathlib.Core.List.{Perm, Mem, Nodup, Nodup-nil}
use nivasa.Routing.Path.{normalize_version_token}
use nivasa.Routing.Pattern.{RoutePattern, pattern_path}
use nivasa.Routing.Pattern.Order.{cmp_specificity-IsPreorder}
use nivasa.Routing.Method.{RouteMethod, as_str}
use nivasa.Routing.Method.Equality.{method_eq_iff}
use nivasa.Routing.Index.{rebuild, rebuild_from}
use nivasa.Routing.Table.{sort_by-push_back-perm, Nodup-push, any_iff-Mem}
use nivasa.Routing.Dispatch.{
  RouteDispatchEntry, RouteDispatchRegistry, duplicate_dispatch_route, option_text_eq, new,
  cmp_entries, entry_first_segment, is_same_route, rebuild_first_segment_index, register_versioned,
}

-- What tells routes apart: method, canonical path and version.
abbrev pub RouteKey : Type 0
RouteKey = RouteMethod × Text × Option Text

abbrev pub entry_key {ℓ} : {T : Type ℓ} → RouteDispatchEntry T → RouteKey
entry_key entry = (entry.method, pattern_path entry.route, entry.version)

pub record IsValid {ℓ} {T : Type ℓ} (self : RouteDispatchRegistry T) : Type ℓ where
  pub sorted : IsSortedBy cmp_entries self.routes
  pub indexed : self.first_segment_index ≡ rebuild entry_first_segment self.routes
  pub unique : Nodup (map entry_key self.routes)

pub option_text_eq_iff : (a b : Option Text) → (option_text_eq a b ≡ true) ↔ (a ≡ b)
option_text_eq_iff none none = ground arith
option_text_eq_iff none (some b) = ground arith
option_text_eq_iff (some a) none = ground arith
option_text_eq_iff (some a) (some b) = ground (arith, text_eq_iff a b)

module _ {ℓ} {T : Type ℓ} where
  cmp_entries-IsPreorder : IsPreorder (cmp_entries {T = T})
  cmp_entries-IsPreorder = record {
    total = λ x y. cmp_specificity-IsPreorder.total x.route y.route;
    trans = λ x y z. cmp_specificity-IsPreorder.trans x.route y.route z.route;
  }

  is_same_route_iff :
      (method : RouteMethod) (path : Text) (version : Option Text) (entry : RouteDispatchEntry T)
      → (is_same_route method path version entry ≡ true)
        ↔ (entry_key entry ≡ (method, path, version))
  is_same_route_iff method path version entry = ground (
    arith,
    method_eq_iff entry.method method,
    text_eq_iff (pattern_path entry.route) path,
    option_text_eq_iff entry.version version,
  )

  abbrev pub new_entry : RouteMethod → RoutePattern → Option Text → T → RouteDispatchEntry T
  new_entry method route version value = record {
    method = method;
    route = route;
    version = and_then version normalize_version_token;
    value = value;
  }

  abbrev pub registered : RouteDispatchRegistry T → RouteDispatchEntry T → RouteDispatchRegistry T
  registered self entry =
      rebuild_first_segment_index
        (record self { routes = sort_by cmp_entries (self.routes ++ (entry ∷ [])) })

  -- Registering a route whose method, path and normalized version are not in the table keeps the
  -- invariant, keeps the old entries and adds the new one; the only error is a duplicate, exactly
  -- when the three are in the table already.
  pub register_versioned_lem :
      (self : RouteDispatchRegistry T) (method : RouteMethod) (route : RoutePattern)
      (version : Option Text) (value : T)
      → IsValid self
      → ((next : RouteDispatchRegistry T) × (register_versioned self method route version value
            ≡ ok next)
          × IsValid next
          × Perm next.routes (new_entry method route version value ∷ self.routes)
          × (¬ Mem (entry_key (new_entry method route version value)) (map entry_key self.routes)))
        ⊎ ((register_versioned self method route version value
              ≡ err (duplicate_dispatch_route (as_str method) (pattern_path route)))
            × Mem (entry_key (new_entry method route version value)) (map entry_key self.routes))
  unfolding register_versioned
  register_versioned_lem self method route version value valid =
      elim (Bool-cases (any test self.routes)) [
        | inl taken ↦ inr (rw taken refl, scan.0 taken)
        | inr fresh ↦ inl (
          registered self entry,
          rw fresh refl,
          record {
            sorted = sort_by-IsSortedBy cmp_entries-IsPreorder _;
            indexed = refl;
            unique =
                Nodup-push entry_key (entry_key entry) test (λ x e. (same x).1 e) cmp_entries
                  self.routes entry refl fresh valid.unique;
          },
          sort_by-push_back-perm cmp_entries self.routes entry,
          λ m. cc (scan.1 m),
        )
      ]
    where
      entry : RouteDispatchEntry T
      entry = new_entry method route version value

      test : RouteDispatchEntry T → Bool
      test = is_same_route method (pattern_path route) entry.version

      same : (x : RouteDispatchEntry T) → (test x ≡ true) ↔ (entry_key x ≡ entry_key entry)
      same = is_same_route_iff method (pattern_path route) entry.version

      scan : (any test self.routes ≡ true) ↔ Mem (entry_key entry) (map entry_key self.routes)
      scan = any_iff-Mem entry_key (entry_key entry) test same self.routes

  -- The invariant holds of an empty registry and is kept by `register_versioned`.
  pub new-IsValid : IsValid (new {T = T})
  unfolding rebuild rebuild_from
  new-IsValid = record { sorted = tt; indexed = refl; unique = Nodup-nil }

  pub register_versioned-IsValid :
      (self next : RouteDispatchRegistry T) (method : RouteMethod) (route : RoutePattern)
      (version : Option Text) (value : T)
      → IsValid self
      → register_versioned self method route version value ≡ ok next
      → IsValid next
  register_versioned-IsValid self next method route version value valid e =
      elim (register_versioned_lem self method route version value valid) [
        | inl (after, f, kept, _, _) ↦ subst IsValid (ok-injective (sym f ∙ e)) kept
        | inr (f, _) ↦ cc
      ]
