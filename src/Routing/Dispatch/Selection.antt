-- ===== src/Routing/Dispatch/Selection.antt =====
-- `RouteDispatchSelection` and the lookups of `RouteDispatchRegistry` of nivasa-routing/src/lib.rs.
use nivasa.Prelude.{
  and_then, cmp_text, if◌then◌else◌, is_some, is_empty, get_elem?, find, Text, text_eq, sort_by, ℕ,
  Bool, true, false, ◌&&◌, not, Option, none, some, List, [], ◌∷◌, ◌++◌, map,
}
use nivasa.Routing.Path.{normalize_path, normalize_version_token}
use nivasa.Routing.Capture.{RoutePathCaptures, captures, matches}
use nivasa.Routing.Version.{parse_api_version_header, parse_api_version_accept}
use nivasa.Routing.Method.{canonical, as_str, method_matches}
use nivasa.Routing.Index.{candidate_indices}
use nivasa.Routing.Dispatch.{RouteDispatchEntry, RouteDispatchRegistry}

pub record RouteDispatchSelection {ℓ} (T : Type ℓ) : Type ℓ where
  pub path : Text
  pub requested_version : Option Text
  pub exact_version_match : Bool
  pub entries : List (RouteDispatchEntry T)

pub data RouteDispatchOutcome {ℓ} (T : Type ℓ) : Type ℓ where
  matched : RouteDispatchEntry T → RouteDispatchOutcome T
  method_not_allowed : (path : Text) (allowed_methods : List Text) → RouteDispatchOutcome T
  not_found : RouteDispatchOutcome T

pub record RouteDispatchMatch {ℓ} (T : Type ℓ) : Type ℓ where
  pub entry : RouteDispatchEntry T
  pub path_captures : RoutePathCaptures

-- `Vec::dedup`: of equal neighbours the first stays.
abbrev pub drop_equal : Text → List Text → List Text
drop_equal x [] = x ∷ []
drop_equal x (y ∷ ys) = if text_eq x y then y ∷ ys else x ∷ y ∷ ys

unfoldable pub dedup : List Text → List Text
dedup [] = []
dedup (x ∷ xs) = drop_equal x (dedup xs)

-- The exact entries and the unversioned entries of the loop of `select_versioned`.
abbrev pub Buckets {ℓ} : Type ℓ → Type ℓ
Buckets T = List (RouteDispatchEntry T) × List (RouteDispatchEntry T)

module _ {ℓ} {T : Type ℓ} where
  -- The `match version.as_deref()` of the loop: exact entries first, unversioned entries second.
  unfoldable pub place : Option Text → RouteDispatchEntry T → Option Text → Buckets T → Buckets T
  place (some version) entry (some tag) (exact, unversioned) =
      if text_eq tag version then (exact ++ (entry ∷ []), unversioned) else (exact, unversioned)
  place (some version) entry none (exact, unversioned) = (exact, unversioned ++ (entry ∷ []))
  place none entry none (exact, unversioned) = (exact, unversioned ++ (entry ∷ []))
  place none entry (some tag) (exact, unversioned) = (exact, unversioned)

  abbrev pub collect_one :
      Option Text → Text → Option (RouteDispatchEntry T) → Buckets T → Buckets T
  collect_one version path none buckets = buckets
  collect_one version path (some entry) buckets =
      if matches entry.route path then place version entry entry.version buckets else buckets

  unfoldable pub collect :
      Option Text → Text → List (RouteDispatchEntry T) → List ℕ → Buckets T → Buckets T
  collect version path routes [] buckets = buckets
  collect version path routes (index ∷ indices) buckets =
      collect version path routes indices
        (collect_one version path (get_elem? routes index) buckets)

  abbrev pub choose : Text → Option Text → Buckets T → RouteDispatchSelection T
  choose path version (exact, unversioned) =
      if is_some version && not (is_empty exact)
      then record {
        path = path;
        requested_version = version;
        exact_version_match = true;
        entries = exact;
      }
      else record {
        path = path;
        requested_version = version;
        exact_version_match = false;
        entries = unversioned;
      }

  unfoldable pub select_versioned :
      RouteDispatchRegistry T → Text → Option Text → RouteDispatchSelection T
  select_versioned self path version =
      let normalized_path = normalize_path path in
      let token = and_then version normalize_version_token in
      choose normalized_path token (
        collect token normalized_path self.routes
          (candidate_indices self.first_segment_index normalized_path) ([], []))

  unfoldable pub select : RouteDispatchRegistry T → Text → RouteDispatchSelection T
  select self path = select_versioned self path none

  unfoldable pub select_header_versioned :
      RouteDispatchRegistry T → Text → Option Text → RouteDispatchSelection T
  select_header_versioned self path header_value =
      select_versioned self path (and_then header_value parse_api_version_header)

  unfoldable pub select_media_type_versioned :
      RouteDispatchRegistry T → Text → Option Text → RouteDispatchSelection T
  select_media_type_versioned self path accept_value =
      select_versioned self path (and_then accept_value parse_api_version_accept)

  unfoldable pub allowed_methods : RouteDispatchSelection T → List Text
  allowed_methods self = dedup (sort_by cmp_text (map (λ entry. as_str entry.method) self.entries))

  -- `RouteDispatchSelection::resolve_entry`.
  unfoldable pub selected_entry : RouteDispatchSelection T → Text → Option (RouteDispatchEntry T)
  selected_entry self method = find (λ entry. method_matches entry.method method) self.entries

  unfoldable pub match_entries :
      Text → Text → List (RouteDispatchEntry T) → Option (RouteDispatchMatch T)
  match_entries path method [] = none
  match_entries path method (entry ∷ entries) =
      let later = match_entries path method entries in
      elim (captures entry.route path) [
        | none ↦ later
        | some found ↦
            if method_matches entry.method method
            then some (record { entry = entry; path_captures = found })
            else later
      ]

  -- `RouteDispatchSelection::resolve_match`.
  unfoldable pub selected_match : RouteDispatchSelection T → Text → Option (RouteDispatchMatch T)
  selected_match self method = match_entries self.path method self.entries

  -- `RouteDispatchSelection::dispatch`.
  unfoldable pub dispatch_selection : RouteDispatchSelection T → Text → RouteDispatchOutcome T
  dispatch_selection self method = elim (selected_entry self method) [
    | some entry ↦ matched entry
    | none ↦
        if is_empty self.entries
        then not_found
        else method_not_allowed self.path (allowed_methods self)
  ]

  unfoldable pub dispatch_versioned :
      RouteDispatchRegistry T → Text → Text → Option Text → RouteDispatchOutcome T
  dispatch_versioned self method path version =
      dispatch_selection (select_versioned self path version) (canonical method)

  unfoldable pub dispatch : RouteDispatchRegistry T → Text → Text → RouteDispatchOutcome T
  dispatch self method path = dispatch_selection (select self path) (canonical method)

  unfoldable pub dispatch_header_versioned :
      RouteDispatchRegistry T → Text → Text → Option Text → RouteDispatchOutcome T
  dispatch_header_versioned self method path header_value =
      dispatch_versioned self method path (and_then header_value parse_api_version_header)

  unfoldable pub dispatch_media_type_versioned :
      RouteDispatchRegistry T → Text → Text → Option Text → RouteDispatchOutcome T
  dispatch_media_type_versioned self method path accept_value =
      dispatch_versioned self method path (and_then accept_value parse_api_version_accept)

  abbrev pub outcome_entry : RouteDispatchOutcome T → Option (RouteDispatchEntry T)
  outcome_entry (matched entry) = some entry
  outcome_entry _ = none

  abbrev pub outcome_value : RouteDispatchOutcome T → Option T
  outcome_value (matched entry) = some entry.value
  outcome_value _ = none

  unfoldable pub resolve : RouteDispatchRegistry T → Text → Text → Option T
  resolve self method path = outcome_value (dispatch self method path)

  unfoldable pub resolve_versioned : RouteDispatchRegistry T → Text → Text → Option Text → Option T
  resolve_versioned self method path version =
      outcome_value (dispatch_versioned self method path version)

  unfoldable pub resolve_entry :
      RouteDispatchRegistry T → Text → Text → Option (RouteDispatchEntry T)
  resolve_entry self method path = outcome_entry (dispatch self method path)

  unfoldable pub contains : RouteDispatchRegistry T → Text → Text → Bool
  contains self method path = is_some (resolve self method path)

  unfoldable pub resolve_match :
      RouteDispatchRegistry T → Text → Text → Option (RouteDispatchMatch T)
  resolve_match self method path = selected_match (select self path) (canonical method)

  unfoldable pub resolve_match_versioned :
      RouteDispatchRegistry T → Text → Text → Option Text → Option (RouteDispatchMatch T)
  resolve_match_versioned self method path version =
      selected_match (select_versioned self path version) (canonical method)
