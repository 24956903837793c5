-- ===== src/Guards/Auth.antt =====
-- `AuthGuard` of nivasa-guards/src/lib.rs.
pub mod Tokens
use nivasa.Prelude.{
  and_then, first_some, ltb, leb, ◌==◌, if◌then◌else◌, ==_iff, ==_refl, Bool-cases, Option-cases,
  is_some, is_none, length, is_empty, first, last, pop, pop-snoc, get_elem?, any, all, find, keep,
  replicate, length-append, All, All-append, All-map, Result, ◌>>=◌, map_err, Result-cases,
  >>=-eq-ok, ok-injective, ok, err, Text, codes, text_eq, text_eq_iff, text_eq_refl, strip_prefix,
  ends_with, starts_with, upper_char, to_ascii_uppercase, push_head, split, join, join_with, Lacks,
  split_whole, split-append, push_head-All, split-Lacks, keep-nonempty, is_whitespace, drop_while,
  drop_end, trim_start_matches, trim_end_matches, trim_matches, trim, ends_without, begins_without,
  drop_while_id, drop_end_id, last-drop_end, first-drop_while, last-append, trim_id, cmp_text,
  get_text, put_text, get_text-put_text, get_text-put_text_other, join-split, strip_text,
  strip_text-append, strip_text-eq-some, Below, insert_by, sort_by, IsSortedBy, insert_by-perm,
  sort_by-perm, IsPreorder, sort_by-IsSortedBy, mem, insert_set, remove_set, remove_set_fresh,
  remove_set_head, lookup, insert_map, keys, mem-keys, lookup-insert_map, count_outside,
  count_outside-le, count_outside-lt, Run, and_run, done, fail, and_run-eq-done, and_run-ne-none, ℕ,
  zero, suc, ◌+◌, ◌-◌, ◌*◌, ◌≤◌, ◌<◌, compare, Ordering, ◌≡◌, refl, sym, ap, ◌∙◌, subst, ◌≢◌, ◌↔◌,
  ◌⊎◌, inl, inr, Bool, true, false, ◌&&◌, ◌||◌, not, Option, none, some, List, [], ◌∷◌, ◌++◌, map,
  arith,
}
use nivasa.Common.Request.{Json}
use nivasa.Guards.Context.{ContextValue, owned_text, static_text, ExecutionContext}
use nivasa.Guards.Throttle.{request_value}

abbrev pub text_of : {Other : Type 0} → ContextValue Other → Option Text
text_of (owned_text token) = some token
text_of (static_text token) = some token
text_of _ = none

unfoldable pub bearer_token_from_context :
    {Data Value Other : Type 0} → Json Value → ExecutionContext Data Value Other → Option Text
bearer_token_from_context json context =
    first_some (and_then (request_value json context (codes "authorization")) json.as_str)
      (and_then (get_text (codes "authorization") context.custom_data) text_of)

-- The four calls of `segments.next()`.
abbrev pub has_three_segments : List Text → Bool
has_three_segments (a ∷ b ∷ c ∷ []) = true
has_three_segments _ = false

abbrev pub is_blank : Text → Bool
is_blank segment = is_empty (trim segment)

abbrev pub is_jwt : Option Text → Bool
is_jwt none = false
is_jwt (some token) =
    has_three_segments (split b'.' token)
    && all (λ segment. not (is_blank segment)) (split b'.' token)

unfoldable pub looks_like_jwt_bearer : Text → Bool
looks_like_jwt_bearer token = is_jwt (strip_text (codes "Bearer ") (trim token))

abbrev pub is_some_and : (Text → Bool) → Option Text → Bool
is_some_and p none = false
is_some_and p (some token) = p token

-- `AuthGuard::can_activate`.
unfoldable pub auth_can_activate :
    {Data Value Other : Type 0} → Json Value → ExecutionContext Data Value Other → Bool
auth_can_activate json context =
    is_some_and looks_like_jwt_bearer (bearer_token_from_context json context)
