-- ===== src/Routing/Version.antt =====
-- `parse_api_version_header` and `parse_api_version_accept` of nivasa-routing/src/lib.rs.
use nivasa.Prelude.{
  and_then, first_some, ◌==◌, if◌then◌else◌, Text, strip_prefix, split, trim, ℕ, Bool, ◌||◌, Option,
  none, some, List, [], ◌∷◌,
}
use nivasa.Routing.Path.{slash, normalize_version_token}

-- `find_map`.
abbrev pub find_map {ℓ κ} : {A : Type ℓ} {B : Type κ} → (A → Option B) → List A → Option B
find_map f [] = none
find_map f (x ∷ xs) = first_some (f x) (find_map f xs)

-- `split(..).next()`: the text before the first separator.
abbrev before : (ℕ → Bool) → Text → Text
before separator [] = []
before separator (c ∷ s) = let rest = before separator s in if separator c then [] else c ∷ rest

-- The second part of `split_once` with a character.
abbrev after_first : ℕ → Text → Option Text
after_first c [] = none
after_first c (x ∷ s) = let rest = after_first c s in if x == c then some s else rest

-- The second part of `rsplit_once(".v")`.
abbrev after_last_dot_v : Text → Option Text
after_last_dot_v [] = none
after_last_dot_v (c ∷ s) = elim (after_last_dot_v s) [
  | some rest ↦ some rest
  | none ↦ if c == b'.' then strip_prefix b'v' s else none
]

abbrev is_version_end : ℕ → Bool
is_version_end c = c == b'+' || c == b';' || c == b'-' || c == b'/'

unfoldable pub parse_api_version_header : Text → Option Text
parse_api_version_header value = normalize_version_token value

unfoldable pub parse_media_range : Text → Option Text
parse_media_range candidate =
    let media_type = trim (before (λ c. c == b';') (trim candidate)) in
    and_then (after_first slash media_type) λ subtype.
      and_then (after_last_dot_v subtype)
        λ version. normalize_version_token (before is_version_end version)

unfoldable pub parse_api_version_accept : Text → Option Text
unfolding parse_media_range
parse_api_version_accept value = find_map parse_media_range (split b',' value)
