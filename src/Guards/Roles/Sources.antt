-- ===== src/Guards/Roles/Sources.antt =====
-- Where `RolesGuard` finds the roles that are required and the roles of the principal.
use nivasa.Prelude.{
  Option-cases, some-injective, first_some, and_then, Text, codes, get_text, ◌≡◌, refl, sym, ◌∙◌,
  subst, ◌≢◌, ◌↔◌, ◌⊎◌, inl, inr, Option, none, some, List, [], ◌∷◌, map,
}
use mathlib.Core.Path.{ap₂}
use nivasa.Common.Request.{Json, RequestContext}
use nivasa.Guards.Context.{
  ContextValue, owned_texts, static_texts, owned_text, static_text, other_value, ContextDataMap,
  ExecutionContext,
}
use nivasa.Guards.Roles.{
  texts_of, roles_from_context_values, collect_texts, json_roles, request_roles, required_roles,
  principal_roles,
}

abbrev pub roles_key : Text
roles_key = codes "roles"

-- The list of roles under the key "roles" of a map: a vector of texts.
abbrev pub Lists : {Other : Type 0} → ContextDataMap Other → List Text → Type 0
Lists values roles =
    (get_text roles_key values ≡ some (owned_texts roles))
    ⊎ (get_text roles_key values ≡ some (static_texts roles))

abbrev pub InMap : {Other : Type 0} → ContextDataMap Other → Option (List Text) → Type 0
InMap values (some roles) = Lists values roles
InMap values none = (roles : List Text) → ¬ Lists values roles

roles_from_context_values-InMap :
    {Other : Type 0} (values : ContextDataMap Other)
    → InMap values (roles_from_context_values values)
unfolding roles_from_context_values
roles_from_context_values-InMap {Other = Other} values = go (get_text roles_key values) refl
  where
    go :
        (found : Option (ContextValue Other))
        → get_text roles_key values ≡ found
        → InMap values (and_then found texts_of)
    go none e = λ roles h. elim h [ inl k ↦ cc | inr k ↦ cc ]
    go (some (owned_texts roles)) e = inl e
    go (some (static_texts roles)) e = inr e
    go (some (owned_text t)) e = λ roles h. elim h [ inl k ↦ cc | inr k ↦ cc ]
    go (some (static_text t)) e = λ roles h. elim h [ inl k ↦ cc | inr k ↦ cc ]
    go (some (other_value x)) e = λ roles h. elim h [ inl k ↦ cc | inr k ↦ cc ]

-- A step of the collection.
abbrev both : Option Text → Option (List Text) → Option (List Text)
both role roles = and_then role λ r. and_then roles λ rs. some (r ∷ rs)

both-eq-some :
    (found : Option Text) (others : Option (List Text)) (role : Text) (roles : List Text)
    → (both found others ≡ some (role ∷ roles)) ↔ ((found ≡ some role) × (others ≡ some roles))
both-eq-some none others role roles = (λ e. cc, λ (h, k). cc)
both-eq-some (some r) none role roles = (λ e. cc, λ (h, k). cc)
both-eq-some (some r) (some rs) role roles = (λ e. (cc, cc), λ (h, k). cc)

both-ne-nil : (found : Option Text) (others : Option (List Text)) → both found others ≢ some []
both-ne-nil none others = λ e. cc
both-ne-nil (some r) none = λ e. cc
both-ne-nil (some r) (some rs) = λ e. cc

collect_texts_iff :
    {Value : Type 0} (as_str : Value → Option Text) (items : List Value) (roles : List Text)
    → (collect_texts as_str items ≡ some roles)
      ↔ (map as_str items ≡ map (λ (role : Text). some role) roles)
collect_texts_iff as_str [] [] = (λ e. refl, λ e. refl)
collect_texts_iff as_str [] (role ∷ roles) = (λ e. cc, λ e. cc)
collect_texts_iff as_str (item ∷ items) [] =
    (λ e. absurd (both-ne-nil (as_str item) (collect_texts as_str items) e), λ e. cc)
collect_texts_iff as_str (item ∷ items) (role ∷ roles) =
    let step = both-eq-some (as_str item) (collect_texts as_str items) role roles in
    let rest = collect_texts_iff as_str items roles in
    (λ e. let (h, k) = step.0 e in ap₂ (λ o l. o ∷ l) h (rest.0 k), λ e. step.1 (cc, rest.1 cc))

module _ {Value : Type 0} (json : Json Value) where
  -- The value is an array, and its elements are exactly these texts.
  abbrev pub AreTexts : Value → List Text → Type 0
  AreTexts values roles =
      (items : List Value) × (json.as_array values ≡ some items)
      × (map json.as_str items ≡ map (λ (role : Text). some role) roles)

  abbrev pub Reads : Value → Option (List Text) → Type 0
  Reads values (some roles) = AreTexts values roles
  Reads values none = (roles : List Text) → ¬ AreTexts values roles

  json_roles-Reads : (values : Value) → Reads values (json_roles json values)
  json_roles-Reads values = elim (Option-cases (json.as_array values)) [
    | inl no_array ↦ rw no_array (λ roles (items, e, same). cc)
    | inr (items, array) ↦ rw array (listed items array (collect_texts json.as_str items) refl)
  ]
    where
      listed :
          (items : List Value)
          → json.as_array values ≡ some items
          → (found : Option (List Text)) → collect_texts json.as_str items ≡ found
          → Reads values found
      listed items array (some roles) e =
          (items, array, (collect_texts_iff json.as_str items roles).0 e)
      listed items array none e = λ roles (others, other_array, same).
          let equal : others ≡ items = some-injective (sym other_array ∙ array) in
          let found =
            (collect_texts_iff json.as_str items roles).1 (
              subst (λ l. map json.as_str l ≡ map (λ (role : Text). some role) roles) equal same) in
          cc

module _ {Data Value : Type 0} where
  -- The request has no roles in its metadata, or there is no request context.
  abbrev pub IsSilent : Option (RequestContext Data Value) → Type 0
  IsSilent none = Unit
  IsSilent (some request) =
      (get_text roles_key request.handler_metadata ≡ none)
      × (get_text roles_key request.class_metadata ≡ none)

  -- The request has no roles in its custom data, or there is no request context.
  abbrev pub HasNoCustom : Option (RequestContext Data Value) → Type 0
  HasNoCustom none = Unit
  HasNoCustom (some request) = get_text roles_key request.custom_data ≡ none

module _ {Data Value Other : Type 0} (json : Json Value) where
  -- The roles that the guard asks for, `none` if it asks for none: those of the request's metadata
  -- for the handler, or else for the class, and only without them those of the context's own maps,
  -- again for the handler before the class.
  pub data Asks (context : ExecutionContext Data Value Other) : Option (List Text) → Type 0 where
    by_handler :
        {asked : Option (List Text)} (request : RequestContext Data Value) (values : Value)
        → context.request_context ≡ some request
        → get_text roles_key request.handler_metadata ≡ some values
        → Reads json values asked
        → Asks context asked
    by_class :
        {asked : Option (List Text)} (request : RequestContext Data Value) (values : Value)
        → context.request_context ≡ some request
        → get_text roles_key request.handler_metadata ≡ none
        → get_text roles_key request.class_metadata ≡ some values
        → Reads json values asked
        → Asks context asked
    by_handler_map :
        (roles : List Text)
        → IsSilent context.request_context
        → Lists context.handler_metadata roles
        → Asks context (some roles)
    by_class_map :
        {asked : Option (List Text)}
        → IsSilent context.request_context
        → InMap context.handler_metadata none
        → InMap context.class_metadata asked
        → Asks context asked

  -- The roles that the principal has: those of the request's custom data, and only without them
  -- those of the context's own.
  pub data Holds (context : ExecutionContext Data Value Other) : Option (List Text) → Type 0 where
    by_request :
        {held : Option (List Text)} (request : RequestContext Data Value) (values : Value)
        → context.request_context ≡ some request
        → get_text roles_key request.custom_data ≡ some values
        → Reads json values held
        → Holds context held
    by_context :
        {held : Option (List Text)}
        → HasNoCustom context.request_context
        → InMap context.custom_data held
        → Holds context held

  maps-Asks :
      (context : ExecutionContext Data Value Other)
      → IsSilent context.request_context
      → Asks context (
          first_some
            (roles_from_context_values context.handler_metadata)
            (roles_from_context_values context.class_metadata))
  maps-Asks context silent =
      go (roles_from_context_values context.handler_metadata)
        (roles_from_context_values-InMap context.handler_metadata)
    where
      go :
          (found : Option (List Text))
          → InMap context.handler_metadata found
          → Asks context (first_some found (roles_from_context_values context.class_metadata))
      go (some roles) h = by_handler_map roles silent h
      go none h = by_class_map silent h (roles_from_context_values-InMap context.class_metadata)

  -- What the guard reads from the request's metadata, or from the maps.
  abbrev or_maps :
      ExecutionContext Data Value Other → Option (Option (List Text)) → Option (List Text)
  or_maps context found = elim found [
    | none ↦
        first_some (roles_from_context_values context.handler_metadata)
          (roles_from_context_values context.class_metadata)
    | some roles ↦ roles
  ]

  pub required_roles-Asks :
      (context : ExecutionContext Data Value Other) → Asks context (required_roles json context)
  unfolding required_roles
  required_roles-Asks context = from_request context.request_context refl
    where
      from_metadata :
          (request : RequestContext Data Value)
          → context.request_context ≡ some request
          → (handler class : Option Value) → get_text roles_key request.handler_metadata ≡ handler
          → get_text roles_key request.class_metadata ≡ class
          → Asks context (or_maps context (request_roles json handler class))
      from_metadata request e (some values) class h c =
          by_handler request values e h (json_roles-Reads json values)
      from_metadata request e none (some values) h c =
          by_class request values e h c (json_roles-Reads json values)
      from_metadata request e none none h c = maps-Asks context (subst IsSilent (sym e) (h, c))

      from_request :
          (found : Option (RequestContext Data Value))
          → context.request_context ≡ found
          → Asks context (
              or_maps context (
                and_then found λ request.
                  request_roles json
                    (get_text roles_key request.handler_metadata)
                    (get_text roles_key request.class_metadata)))
      from_request none e = maps-Asks context (subst IsSilent (sym e) tt)
      from_request (some request) e = from_metadata request e _ _ refl refl

  pub principal_roles-Holds :
      (context : ExecutionContext Data Value Other) → Holds context (principal_roles json context)
  unfolding principal_roles
  principal_roles-Holds context = from_request context.request_context refl
    where
      or_map : Option Value → Option (List Text)
      or_map found = elim found [
        | none ↦ roles_from_context_values context.custom_data
        | some values ↦ json_roles json values
      ]

      from_custom :
          (request : RequestContext Data Value)
          → context.request_context ≡ some request
          → (custom : Option Value) → get_text roles_key request.custom_data ≡ custom
          → Holds context (or_map custom)
      from_custom request e (some values) c =
          by_request request values e c (json_roles-Reads json values)
      from_custom request e none c =
          by_context (subst HasNoCustom (sym e) c)
            (roles_from_context_values-InMap context.custom_data)

      from_request :
          (found : Option (RequestContext Data Value))
          → context.request_context ≡ found
          → Holds context
              (or_map (and_then found λ request. get_text roles_key request.custom_data))
      from_request none e =
          by_context (subst HasNoCustom (sym e) tt)
            (roles_from_context_values-InMap context.custom_data)
      from_request (some request) e = from_custom request e _ refl
