-- ===== src/Routing/Path.antt =====
-- The path helpers at the end of nivasa-routing/src/lib.rs, over texts as lists of code points.
-- `prefixed.len() > 1` counts bytes; `prefixed` begins with '/', so counting characters agrees.
pub mod Segments
pub mod Joined
pub mod Normal
use nivasa.Prelude.{
  ℕ, Text, List, [], ◌∷◌, ◌++◌, not, Option, none, some, if◌then◌else◌, is_empty, keep, find, split,
  join, trim, trim_end_matches, trim_matches, starts_with, strip_prefix, length, ltb, ◌||◌,
}

abbrev pub slash : ℕ
slash = b'/'

unfoldable pub normalize_path : Text → Text
normalize_path path =
    let trimmed = trim path in
    let prefixed = if starts_with slash trimmed then trimmed else slash ∷ trimmed in
    if is_empty trimmed
    then slash ∷ []
    else if ltb 1 (length prefixed)
    then trim_end_matches slash prefixed
    else prefixed

unfoldable pub split_path_segments : Text → List Text
split_path_segments path = keep (λ segment. not (is_empty segment)) (split slash path)

unfoldable pub join_segments : List Text → Text
join_segments [] = slash ∷ []
join_segments (segment ∷ segments) = slash ∷ join slash (segment ∷ segments)

unfoldable pub first_path_segment : Text → Option Text
first_path_segment path = find (λ segment. not (is_empty segment)) (split slash path)

unfoldable pub merge_route_paths : Text → Text → Text
merge_route_paths prefix path =
    let normalized_prefix = trim_end_matches slash (trim prefix) in
    let normalized_path = trim_matches slash (trim path) in
    if is_empty normalized_prefix
    then (if is_empty normalized_path then slash ∷ [] else slash ∷ normalized_path)
    else if is_empty normalized_path
    then normalized_prefix
    else normalized_prefix ++ (slash ∷ normalized_path)

unfoldable pub version_segment : Text → Text
version_segment version =
    let trimmed = trim_matches slash (trim version) in
    if is_empty trimmed
    then []
    else if starts_with b'v' trimmed || starts_with b'V' trimmed
    then trimmed
    else b'v' ∷ trimmed

-- `strip_prefix('v').or_else(|| strip_prefix('V')).unwrap_or(trimmed)`.
abbrev pub strip_version : Text → Text
strip_version trimmed = elim (strip_prefix b'v' trimmed) [
  | some rest ↦ rest
  | none ↦ elim (strip_prefix b'V' trimmed) [ some rest ↦ rest | none ↦ trimmed ]
]

unfoldable pub normalize_version_token : Text → Option Text
normalize_version_token version =
    let trimmed = trim_matches slash (trim version) in
    let stripped = strip_version trimmed in
    if is_empty trimmed then none else if is_empty stripped then none else some (b'v' ∷ stripped)
