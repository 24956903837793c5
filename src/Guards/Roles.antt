-- ===== src/Guards/Roles.antt =====
-- `RolesGuard` of nivasa-guards/src/lib.rs.
pub mod Sources
pub mod Access
use nivasa.Prelude.{
  and_then, first_some, ltb, leb, ◌==◌, if◌then◌else◌, ==_iff, ==_refl, Bool-cases, Option-cases,
  is_some, is_none, length, is_empty, first, last, pop, pop-snoc, get_elem?, any, all, find, keep,
  replicate, length-append, All, All-append, All-map, Result, ◌>>=◌, map_err, Result-cases,
  >>=-eq-ok, ok-injective, ok, err, Text, codes, text_eq, text_eq_iff, text_eq_refl, strip_prefix,
  ends_with, starts_with, upper_char, to_ascii_uppercase, push_head, split, join, join_with, Lacks,
  split_whole, split-append, push_head-All, split-Lacks, keep-nonempty, is_whitespace, drop_while,
  drop_end, trim_start_matches, trim_end_matches, trim_matches, trim, ends_without, begins_without,
  drop_while_id, drop_end_id, last-drop_end, first-drop_while, last-append, trim_id, cmp_text,
  get_text, put_text, get_text-put_text, get_text-put_text_other, join-split, strip_text,
  strip_text-append, strip_text-eq-some, Below, insert_by, sort_by, IsSortedBy, insert_by-perm,
  sort_by-perm, IsPreorder, sort_by-IsSortedBy, mem, insert_set, remove_set, remove_set_fresh,
  remove_set_head, lookup, insert_map, keys, mem-keys, lookup-insert_map, count_outside,
  count_outside-le, count_outside-lt, Run, and_run, done, fail, and_run-eq-done, and_run-ne-none, ℕ,
  zero, suc, ◌+◌, ◌-◌, ◌*◌, ◌≤◌, ◌<◌, compare, Ordering, ◌≡◌, refl, sym, ap, ◌∙◌, subst, ◌≢◌, ◌↔◌,
  ◌⊎◌, inl, inr, Bool, true, false, ◌&&◌, ◌||◌, not, Option, none, some, List, [], ◌∷◌, ◌++◌, map,
  arith,
}
use nivasa.Common.Request.{Json, RequestContext, handler_value, class_value, custom_value}
use nivasa.Guards.Context.{
  ContextValue, owned_texts, static_texts, ContextDataMap, ExecutionContext,
}

abbrev pub texts_of : {Other : Type 0} → ContextValue Other → Option (List Text)
texts_of (owned_texts roles) = some roles
texts_of (static_texts roles) = some roles
texts_of _ = none

-- `roles_from_context_values`.
unfoldable pub roles_from_context_values :
    {Other : Type 0} → ContextDataMap Other → Option (List Text)
roles_from_context_values values = and_then (get_text (codes "roles") values) texts_of

-- `collect::<Option<Vec<_>>>()`.
abbrev pub collect_texts :
    {Value : Type 0} → (Value → Option Text) → List Value → Option (List Text)
collect_texts as_str [] = some []
collect_texts as_str (value ∷ values) =
    and_then (as_str value)
      λ role. and_then (collect_texts as_str values) λ roles. some (role ∷ roles)

unfoldable pub roles_match : List Text → List Text → Bool
roles_match required principal =
    any (λ role. any (λ candidate. text_eq candidate role) principal) required

abbrev pub or_no_roles : Option (List Text) → List Text
or_no_roles none = []
or_no_roles (some roles) = roles

module _ {Value : Type 0} (json : Json Value) where
  -- The roles in a JSON value: an array of texts, or nothing.
  abbrev pub json_roles : Value → Option (List Text)
  json_roles values = and_then (json.as_array values) λ roles. collect_texts json.as_str roles

  -- The metadata of the request context: what the function returns from there, if it does.
  abbrev pub request_roles : Option Value → Option Value → Option (Option (List Text))
  request_roles (some values) in_class = some (json_roles values)
  request_roles none (some values) = some (json_roles values)
  request_roles none none = none

module _ {Data Value Other : Type 0} (json : Json Value) where
  unfoldable pub required_roles : ExecutionContext Data Value Other → Option (List Text)
  required_roles context =
      let from_request = and_then context.request_context λ request.
        request_roles json (handler_value request (codes "roles"))
          (class_value request (codes "roles")) in
      let from_maps =
        first_some (roles_from_context_values context.handler_metadata)
          (roles_from_context_values context.class_metadata) in
      elim from_request [ none ↦ from_maps | some roles ↦ roles ]

  unfoldable pub principal_roles : ExecutionContext Data Value Other → Option (List Text)
  principal_roles context =
      let custom =
        and_then context.request_context λ request. custom_value request (codes "roles") in
      let from_map = roles_from_context_values context.custom_data in
      elim custom [ none ↦ from_map | some values ↦ json_roles json values ]

  -- `RolesGuard::can_activate`.
  unfoldable pub roles_can_activate : ExecutionContext Data Value Other → Bool
  roles_can_activate context =
      let principal = or_no_roles (principal_roles context) in
      elim (required_roles context) [ none ↦ true | some required ↦ roles_match required principal ]
