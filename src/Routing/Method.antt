-- ===== src/Routing/Method.antt =====
-- `RouteMethod` of nivasa-routing/src/lib.rs.
pub mod Equality
use nivasa.Prelude.{
  if◌then◌else◌, Text, codes, text_eq, to_ascii_uppercase, trim, Bool, true, false,
}

pub data RouteMethod : Type 0 where
  get_method post put delete patch head options all_methods : RouteMethod
  other : Text → RouteMethod

-- `method.trim().to_ascii_uppercase()`.
unfoldable pub canonical : Text → Text
canonical method = to_ascii_uppercase (trim method)

unfoldable pub parse_upper : Text → RouteMethod
parse_upper method =
    if text_eq method (codes "GET")
    then get_method
    else if text_eq method (codes "POST")
    then post
    else if text_eq method (codes "PUT")
    then put
    else if text_eq method (codes "DELETE")
    then delete
    else if text_eq method (codes "PATCH")
    then patch
    else if text_eq method (codes "HEAD")
    then head
    else if text_eq method (codes "OPTIONS")
    then options
    else if text_eq method (codes "ALL")
    then all_methods
    else other method

unfoldable pub parse_method : Text → RouteMethod
parse_method method = parse_upper (canonical method)

unfoldable pub as_str : RouteMethod → Text
as_str get_method = codes "GET"
as_str post = codes "POST"
as_str put = codes "PUT"
as_str delete = codes "DELETE"
as_str patch = codes "PATCH"
as_str head = codes "HEAD"
as_str options = codes "OPTIONS"
as_str all_methods = codes "ALL"
as_str (other method) = method

-- The derived equality of the enum: two methods with one constructor and one payload.
unfoldable pub method_eq : RouteMethod → RouteMethod → Bool
method_eq get_method get_method = true
method_eq post post = true
method_eq put put = true
method_eq delete delete = true
method_eq patch patch = true
method_eq head head = true
method_eq options options = true
method_eq all_methods all_methods = true
method_eq (other a) (other b) = text_eq a b
method_eq _ _ = false

-- `RouteMethod::matches`.
unfoldable pub method_matches : RouteMethod → Text → Bool
method_matches all_methods method = true
method_matches self method = text_eq (as_str self) method
