-- ===== src/Routing/Dispatch/Matching.antt =====
-- `resolve_match_versioned` against `dispatch_versioned` of `RouteDispatchRegistry`.
use nivasa.Prelude.{
  and_then, Bool-cases, is_some, is_empty, get_elem?, find, All, All-append, Text, text_eq, ℕ, ◌≡◌,
  refl, sym, ◌∙◌, subst, inl, inr, true, ◌&&◌, not, Option, none, some, List, [], ◌∷◌, arith,
}
use nivasa.Routing.Path.{normalize_path, normalize_version_token}
use nivasa.Routing.Capture.{captures, matches}
use nivasa.Routing.Index.{candidate_indices}
use nivasa.Routing.Method.{canonical, method_matches}
use nivasa.Routing.Dispatch.{RouteDispatchEntry, RouteDispatchRegistry}
use nivasa.Routing.Dispatch.Selection.{
  RouteDispatchSelection, RouteDispatchMatch, Buckets, place, collect_one, collect, choose,
  select_versioned, selected_entry, match_entries, selected_match, dispatch_selection,
  dispatch_versioned, resolve_match_versioned, outcome_entry,
}

module _ {ℓ} {T : Type ℓ} where
  -- The entry of a match, for comparison with a dispatch.
  abbrev pub match_entry : Option (RouteDispatchMatch T) → Option (RouteDispatchEntry T)
  match_entry none = none
  match_entry (some found) = some found.entry

  abbrev pub AllMatch : Text → List (RouteDispatchEntry T) → Type 0
  AllMatch path entries = All (λ entry. matches entry.route path ≡ true) entries

  place-AllMatch :
      (path : Text) (version : Option Text) (entry : RouteDispatchEntry T) (tag : Option Text)
      (b : Buckets T)
      → matches entry.route path ≡ true
      → AllMatch path b.0 × AllMatch path b.1
      → AllMatch path (place version entry tag b).0 × AllMatch path (place version entry tag b).1
  unfolding place
  place-AllMatch path (some v) entry (some t) (es, us) h (k, l) = elim (Bool-cases (text_eq t v)) [
    | inl e ↦ rw e (All-append _ es (entry ∷ []) k (h, tt), l)
    | inr e ↦ rw e (k, l)
  ]
  place-AllMatch path (some v) entry none (es, us) h (k, l) =
      (k, All-append _ us (entry ∷ []) l (h, tt))
  place-AllMatch path none entry none (es, us) h (k, l) =
      (k, All-append _ us (entry ∷ []) l (h, tt))
  place-AllMatch path none entry (some t) (es, us) h (k, l) = (k, l)

  collect_one-AllMatch :
      (path : Text) (version : Option Text) (o : Option (RouteDispatchEntry T)) (b : Buckets T)
      → AllMatch path b.0 × AllMatch path b.1
      → AllMatch path (collect_one version path o b).0
        × AllMatch path (collect_one version path o b).1
  collect_one-AllMatch path version none b h = h
  collect_one-AllMatch path version (some entry) b h =
      elim (Bool-cases (matches entry.route path)) [
        | inl e ↦ rw e (place-AllMatch path version entry entry.version b e h)
        | inr e ↦ rw e h
      ]

  collect-AllMatch :
      (path : Text) (version : Option Text) (routes : List (RouteDispatchEntry T))
      (indices : List ℕ) (b : Buckets T)
      → AllMatch path b.0 × AllMatch path b.1
      → AllMatch path (collect version path routes indices b).0
        × AllMatch path (collect version path routes indices b).1
  unfolding collect
  collect-AllMatch path version routes [] b h = h
  collect-AllMatch path version routes (index ∷ indices) b h =
      collect-AllMatch path version routes indices
        (collect_one version path (get_elem? routes index) b)
        (collect_one-AllMatch path version (get_elem? routes index) b h)

  choose-AllMatch :
      (path : Text) (version : Option Text) (b : Buckets T)
      → AllMatch path b.0 × AllMatch path b.1
      → AllMatch (choose path version b).path (choose path version b).entries
  choose-AllMatch path version (es, us) (h, k) =
      elim (Bool-cases (is_some version && not (is_empty es))) [ inl e ↦ rw e h | inr e ↦ rw e k ]

  choose-path :
      (path : Text) (version : Option Text) (b : Buckets T) → (choose path version b).path ≡ path
  choose-path path version (es, us) = ground arith

  match_entries_lem :
      (path method : Text) (entries : List (RouteDispatchEntry T))
      → AllMatch path entries
      → match_entry (match_entries path method entries)
        ≡ find (λ entry. method_matches entry.method method) entries
  unfolding match_entries matches
  match_entries_lem path method [] h = refl
  match_entries_lem path method (x ∷ xs) (h, hs) =
      ground (arith, match_entries_lem path method xs hs)

  match_entries-captures :
      (path method : Text) (entries : List (RouteDispatchEntry T)) {found : RouteDispatchMatch T}
      → match_entries path method entries ≡ some found
      → captures found.entry.route path ≡ some found.path_captures
  unfolding match_entries
  match_entries-captures path method [] e = cc
  match_entries-captures path method (x ∷ xs) {found} e =
      ground (arith, match_entries-captures path method xs {found = found})

  outcome_entry-dispatch_selection :
      (self : RouteDispatchSelection T) (method : Text)
      → outcome_entry (dispatch_selection self method) ≡ selected_entry self method
  unfolding dispatch_selection
  outcome_entry-dispatch_selection self method = ground arith

  -- `resolve_match_versioned` finds the entry that `dispatch_versioned` matches, and nothing when
  -- that finds nothing or refuses the method.
  pub resolve_match_versioned-dispatch_versioned :
      (self : RouteDispatchRegistry T) (method path : Text) (version : Option Text)
      → match_entry (resolve_match_versioned self method path version)
        ≡ outcome_entry (dispatch_versioned self method path version)
  unfolding resolve_match_versioned dispatch_versioned selected_match select_versioned
      selected_entry
  resolve_match_versioned-dispatch_versioned self method path version =
      match_entries_lem _ (canonical method) _ (
        choose-AllMatch _ _ _ (
          collect-AllMatch (normalize_path path) (and_then version normalize_version_token)
            self.routes (candidate_indices self.first_segment_index (normalize_path path)) ([], [])
            (tt, tt)))
      ∙ sym (outcome_entry-dispatch_selection _ (canonical method))

  -- The captures of a match are those of its route on the normalized path.
  pub resolve_match_versioned-captures :
      (self : RouteDispatchRegistry T) (method path : Text) (version : Option Text)
      {found : RouteDispatchMatch T}
      → resolve_match_versioned self method path version ≡ some found
      → captures found.entry.route (normalize_path path) ≡ some found.path_captures
  unfolding resolve_match_versioned selected_match select_versioned
  resolve_match_versioned-captures self method path version {found} e =
      match_entries-captures (normalize_path path) (canonical method) _ {found = found} (
        subst
          (λ p.
            match_entries p (canonical method) (select_versioned self path version).entries
            ≡ some found)
          (choose-path (normalize_path path) (and_then version normalize_version_token) (
            collect (and_then version normalize_version_token) (normalize_path path) self.routes
              (candidate_indices self.first_segment_index (normalize_path path)) ([], [])))
          e)
