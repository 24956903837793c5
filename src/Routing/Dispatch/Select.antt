-- ===== src/Routing/Dispatch/Select.antt =====
-- The indexed selection of `RouteDispatchRegistry` against a scan of the table.
use nivasa.Prelude.{
  ◌≢◌, ◌⊎◌, subst, and_then, if◌then◌else◌, Bool-cases, get_elem?, keep, Text, text_eq,
  is_whitespace, ends_without, ℕ, suc, ◌+◌, ◌≡◌, refl, sym, ap, ◌∙◌, inl, inr, Bool, true, false,
  ◌&&◌, Option, none, some, List, [], ◌∷◌, ◌++◌, arith,
}
use mathlib.Core.List.{append-nil, append_assoc}
use nivasa.Routing.Path.{normalize_path, normalize_version_token}
use nivasa.Routing.Capture.{matches}
use nivasa.Routing.Index.Candidates.{indices_of, candidate_indices-rebuild}
use nivasa.Routing.Registry.Resolve.{matches-is_candidate}
use nivasa.Routing.Dispatch.{
  RouteDispatchEntry, RouteDispatchRegistry, option_text_eq, entry_first_segment,
}
use nivasa.Routing.Dispatch.Selection.{
  RouteDispatchSelection, Buckets, place, collect_one, collect, choose, select_versioned,
}
use nivasa.Routing.Dispatch.Invariant.{IsValid}

module _ {ℓ} {T : Type ℓ} where
  -- The routes of the table that match the path and carry the tag, in the order of the table.
  unfoldable pub tagged :
      Text → Option Text → List (RouteDispatchEntry T) → List (RouteDispatchEntry T)
  tagged path tag routes =
      keep (λ entry. matches entry.route path && option_text_eq entry.version tag) routes

  -- Those with exactly the requested version; none if no version is requested.
  abbrev pub exact : Text → Option Text → List (RouteDispatchEntry T) → List (RouteDispatchEntry T)
  exact path none routes = []
  exact path (some version) routes = tagged path (some version) routes

  abbrev pub buckets : Text → Option Text → List (RouteDispatchEntry T) → Buckets T
  buckets path version routes = (exact path version routes, tagged path none routes)

  abbrev join_buckets : Buckets T → Buckets T → Buckets T
  join_buckets (es, us) (fs, vs) = (es ++ fs, us ++ vs)

  place_lem :
      (version : Option Text) (path : Text) (entry : RouteDispatchEntry T) (b : Buckets T)
      (rest : List (RouteDispatchEntry T))
      → join_buckets (collect_one version path (some entry) b) (buckets path version rest)
        ≡ join_buckets b (buckets path version (entry ∷ rest))
  unfolding place tagged
  place_lem none path entry (es, us) rest = go (matches entry.route path) entry.version
    where
      others : List (RouteDispatchEntry T)
      others = tagged path none rest

      go :
          (hit : Bool) (tag : Option Text)
          → join_buckets (if hit then place none entry tag (es, us) else (es, us)) ([], others)
            ≡ (es ++ [], us ++ (if hit && option_text_eq tag none then entry ∷ others else others))
      go false tag = refl
      go true none = ap (λ l. (es ++ [], l)) (append_assoc us (entry ∷ []) others)
      go true (some t) = refl
  place_lem (some v) path entry (es, us) rest = go (matches entry.route path) entry.version
    where
      hits : List (RouteDispatchEntry T)
      hits = tagged path (some v) rest

      others : List (RouteDispatchEntry T)
      others = tagged path none rest

      go :
          (hit : Bool) (tag : Option Text)
          → join_buckets
              (if hit then place (some v) entry tag (es, us) else (es, us))
              (hits, others)
            ≡ (
              es ++ (if hit && option_text_eq tag (some v) then entry ∷ hits else hits),
              us ++ (if hit && option_text_eq tag none then entry ∷ others else others),
            )
      go false tag = refl
      go true none = ap (λ l. (es ++ hits, l)) (append_assoc us (entry ∷ []) others)
      go true (some t) = elim (Bool-cases (text_eq t v)) [
        | inl e ↦ rw e (ap (λ l. (l, us ++ others)) (append_assoc es (entry ∷ []) hits))
        | inr e ↦ rw e refl
      ]

  -- A route that does not match changes no bucket.
  miss_lem :
      (version : Option Text) (path : Text) (entry : RouteDispatchEntry T)
      (rest : List (RouteDispatchEntry T))
      → matches entry.route path ≡ false
      → buckets path version (entry ∷ rest) ≡ buckets path version rest
  unfolding tagged
  miss_lem none path entry rest h = rw h refl
  miss_lem (some v) path entry rest h = rw h refl

  join_buckets-nil : (b : Buckets T) → join_buckets b ([], []) ≡ b
  join_buckets-nil (es, us) = λ i. (append-nil es i, append-nil us i)

  collect-indices_of :
      (version : Option Text) (path : Text) (routes : List (RouteDispatchEntry T))
      (p : RouteDispatchEntry T → Bool) (index : ℕ) (xs : List (RouteDispatchEntry T))
      (b : Buckets T)
      → ((k : ℕ) (x : RouteDispatchEntry T)
          → get_elem? xs k ≡ some x
          → get_elem? routes (k + index) ≡ some x)
      → ((x : RouteDispatchEntry T) → p x ≡ false → matches x.route path ≡ false)
      → collect version path routes (indices_of p index xs) b
        ≡ join_buckets b (buckets path version xs)
  unfolding collect indices_of tagged
  collect-indices_of none path routes p index [] b agree skip = sym (join_buckets-nil b)
  collect-indices_of (some v) path routes p index [] b agree skip = sym (join_buckets-nil b)
  collect-indices_of version path routes p index (x ∷ xs) b agree skip = elim (Bool-cases (p x)) [
    | inl e ↦ rw e (
        ap
          (λ o.
            collect version path routes (indices_of p (suc index) xs)
              (collect_one version path o b))
          found
        ∙ collect-indices_of version path routes p (suc index) xs
            (collect_one version path (some x) b) tail skip
        ∙ place_lem version path x b xs)
    | inr e ↦ rw e (
        collect-indices_of version path routes p (suc index) xs b tail skip
        ∙ ap (join_buckets b) (sym (miss_lem version path x xs (skip x e))))
  ]
    where
      found : get_elem? routes index ≡ some x
      found = let e : 0 + index ≡ index = omega arith in rw e at (agree 0 x refl)

      tail :
          (k : ℕ) (y : RouteDispatchEntry T)
          → get_elem? xs k ≡ some y
          → get_elem? routes (k + suc index) ≡ some y
      tail k y h =
          let e : suc k + index ≡ k + suc index = omega arith in rw e at (agree (suc k) y h)

  select_versioned-choose :
      (self : RouteDispatchRegistry T) (path : Text) (version : Option Text)
      → IsValid self
      → ends_without is_whitespace (normalize_path path) ≡ true
      → select_versioned self path version
        ≡ choose
            (normalize_path path)
            (and_then version normalize_version_token)
            (buckets (normalize_path path) (and_then version normalize_version_token) self.routes)
  unfolding select_versioned
  select_versioned-choose self path version valid clean =
      rw
        (
          valid.indexed,
          candidate_indices-rebuild entry_first_segment self.routes (normalize_path path),
        )
        (ap (choose (normalize_path path) token) (
          collect-indices_of token (normalize_path path) self.routes _ 0 self.routes ([], [])
            (λ k x e. let f : k + 0 ≡ k = omega arith in rw (f, e))
            (λ x h. matches-is_candidate x.route path clean h)))
    where
      token : Option Text
      token = and_then version normalize_version_token

  -- The selection is for the path and the version, holds the routes `hits` with exactly that version
  -- if there are any, and otherwise `others`, and says which.
  abbrev pub Selects :
      Text
      → Option Text
      → List (RouteDispatchEntry T)
      → List (RouteDispatchEntry T)
      → RouteDispatchSelection T
      → Type ℓ
  Selects path version hits others selection =
      (selection.path ≡ path)
      × (selection.requested_version ≡ version)
      × (((hits ≢ []) × (selection.exact_version_match ≡ true) × (selection.entries ≡ hits))
          ⊎ ((hits ≡ []) × (selection.exact_version_match ≡ false) × (selection.entries ≡ others)))

  choose-Selects :
      (path : Text) (version : Option Text) (routes : List (RouteDispatchEntry T))
      → Selects path version
          (exact path version routes)
          (tagged path none routes)
          (choose path version (buckets path version routes))
  choose-Selects path none routes = (refl, refl, inr (refl, refl, refl))
  choose-Selects path (some version) routes = go (tagged path (some version) routes)
    where
      go :
          (hits : List (RouteDispatchEntry T))
          → Selects path
              (some version)
              hits
              (tagged path none routes)
              (choose path (some version) (hits, tagged path none routes))
      go [] = (refl, refl, inr (refl, refl, refl))
      go (hit ∷ hits) = (refl, refl, inl (λ e. cc, refl, refl))

  -- In a valid registry, for a path whose normalized form does not end in white space, the
  -- selection is for the normalized path and version. If routes of the table match the path with
  -- exactly that version, it says so and holds them; otherwise it holds the matching unversioned
  -- routes. They stand in the order of the table.
  pub select_versioned-eq-scan :
      (self : RouteDispatchRegistry T) (path : Text) (version : Option Text)
      → IsValid self
      → ends_without is_whitespace (normalize_path path) ≡ true
      → Selects
          (normalize_path path)
          (and_then version normalize_version_token)
          (exact (normalize_path path) (and_then version normalize_version_token) self.routes)
          (tagged (normalize_path path) none self.routes)
          (select_versioned self path version)
  select_versioned-eq-scan self path version valid clean =
      subst
        (Selects (normalize_path path) token (exact (normalize_path path) token self.routes)
          (tagged (normalize_path path) none self.routes))
        (sym (select_versioned-choose self path version valid clean))
        (choose-Selects (normalize_path path) token self.routes)
    where
      token : Option Text
      token = and_then version normalize_version_token
