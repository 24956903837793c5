-- ===== src/Examples/Gates.antt =====
-- Tests and witnesses for the guards. A JSON value is here a text, a truth value, a number or a list.
use nivasa.Prelude.{
  Text, codes, is_whitespace, trim, ℕ, ◌≡◌, refl, ◌↔◌, inl, Bool, true, false, Option, none, some,
  List, [], ◌∷◌, map, arith,
}
use nivasa.Common.Request.{Json, RequestContext, handler_value}
use nivasa.Common.Request
use nivasa.Guards.Context.{ExecutionContext, other_value}
use nivasa.Guards.Throttle.{
  allow, renewed, count_request, allows_request, request_limit, request_ttl,
  throttle_key_from_context, has_minimal_valid_configuration,
}
use nivasa.Guards.Throttle.Window.{allow_all, granted, allow_all_lem}
use nivasa.Guards.Auth.{looks_like_jwt_bearer}
use nivasa.Guards.Auth.Tokens.{IsBearer, looks_like_jwt_bearer_iff}
use nivasa.Guards.Roles.{
  principal_roles, roles_can_activate, required_roles, roles_match, roles_from_context_values,
}
use nivasa.Guards.Roles.Access.{Passes, roles_can_activate_lem}
use nivasa.Guards.Roles.Sources.{Asks, Holds}

data Sample : Type 0 where
  text : Text → Sample
  flag : Bool → Sample
  number : ℕ → Sample
  array : List Text → Sample

abbrev sample_str : Sample → Option Text
sample_str (text t) = some t
sample_str _ = none

abbrev sample_bool : Sample → Option Bool
sample_bool (flag b) = some b
sample_bool _ = none

abbrev sample_u64 : Sample → Option ℕ
sample_u64 (number n) = some n
sample_u64 _ = none

abbrev sample_array : Sample → Option (List Sample)
sample_array (array ts) = some (map text ts)
sample_array _ = none

abbrev json : Json Sample
json = record {
  as_str = sample_str;
  as_bool = sample_bool;
  as_u64 = sample_u64;
  as_array = sample_array;
}

abbrev Context : Type 0
Context = ExecutionContext ℕ Sample ℕ

-- Handler metadata and custom data of the request under "roles".
abbrev roles_context : Sample → Sample → Context
roles_context asked held = record {
  request = other_value 0;
  request_context = some (record (Request.new {Data = ℕ} {Value = Sample}) {
    handler_metadata = (codes "roles", asked) ∷ [];
    custom_data = (codes "roles", held) ∷ [];
  });
  handler_metadata = [];
  class_metadata = [];
  custom_data = [];
}

admin_passes :
    roles_can_activate json
      (roles_context (array (codes "admin" ∷ [])) (array (codes "user" ∷ codes "admin" ∷ [])))
    ≡ true
unfolding roles_can_activate required_roles principal_roles roles_match
admin_passes = refl

user_stays_out :
    roles_can_activate json (roles_context (array (codes "admin" ∷ [])) (array (codes "user" ∷ [])))
    ≡ false
unfolding roles_can_activate required_roles principal_roles roles_match
user_stays_out = refl

-- A single text in place of an array lets everyone in.
text_lets_in : roles_can_activate json (roles_context (text (codes "admin")) (array [])) ≡ true
unfolding roles_can_activate required_roles principal_roles roles_match roles_from_context_values
text_lets_in = refl

abbrev admins : Context
admins = roles_context (array (codes "admin" ∷ [])) (array (codes "user" ∷ []))

roles_can_activate_lem_example :
    (required : Option (List Text)) × (held : Option (List Text)) × Asks json admins required
    × Holds json admins held
    × ((roles_can_activate json admins ≡ true) ↔ Passes required held)
roles_can_activate_lem_example = roles_can_activate_lem json admins

abbrev token : Text
token = codes " Bearer aa.bb.cc"

accepts_token : looks_like_jwt_bearer token ≡ true
unfolding looks_like_jwt_bearer is_whitespace
accepts_token = refl

refuses_two_parts : looks_like_jwt_bearer (codes "Bearer aa.bb") ≡ false
unfolding looks_like_jwt_bearer is_whitespace
refuses_two_parts = refl

looks_like_jwt_bearer_iff_example : (looks_like_jwt_bearer token ≡ true) ↔ IsBearer (trim token)
looks_like_jwt_bearer_iff_example = looks_like_jwt_bearer_iff token

two_per_window :
    (allow_all [] (codes "k") 2 10 (100 ∷ 103 ∷ 109 ∷ 110 ∷ [])).1 ≡ true ∷ true ∷ false ∷ true ∷ []
unfolding allow_all allow renewed count_request
two_per_window = refl

allow_all_lem_example :
    (allow_all [] (codes "k") 2 10 (100 ∷ 103 ∷ 109 ∷ [])).1 ≡ granted 2 (100 ∷ 103 ∷ 109 ∷ [])
allow_all_lem_example =
    allow_all_lem [] (codes "k") 2 10 100 (103 ∷ 109 ∷ []) (omega arith) (omega arith) (omega arith)
      (inl refl) (omega arith, (omega arith, tt))

-- `as u32` makes a limit of `2 ^ 32` zero, and the request is refused.
wide_limit :
    (allows_request {Other = ℕ} json
      (record { limit = 5; ttl = 10; storage = [] })
      (record {
        request = other_value 0;
        request_context = some (record (Request.new {Data = ℕ} {Value = Sample}) {
          custom_data = (codes "throttle_limit", number 4_294_967_296) ∷ [];
        });
        handler_metadata = [];
        class_metadata = [];
        custom_data = [];
      })
      7).1
    ≡ false
unfolding allows_request request_limit request_ttl throttle_key_from_context
    has_minimal_valid_configuration allow
wide_limit = refl
