-- ===== src/Routing/Method/Equality.antt =====
-- The derived equality of `RouteMethod` decides equality; parsing and printing of methods.
use nivasa.Prelude.{text_eq_iff, ◌≡◌, ◌↔◌, true, arith}
use nivasa.Routing.Method.{
  RouteMethod, get_method, post, put, delete, patch, head, options, all_methods, other, method_eq,
}

pub method_eq_iff : (a b : RouteMethod) → (method_eq a b ≡ true) ↔ (a ≡ b)
unfolding method_eq
method_eq_iff (other a) (other b) = ground (arith, text_eq_iff a b)
method_eq_iff get_method b = ground arith
method_eq_iff post b = ground arith
method_eq_iff put b = ground arith
method_eq_iff delete b = ground arith
method_eq_iff patch b = ground arith
method_eq_iff head b = ground arith
method_eq_iff options b = ground arith
method_eq_iff all_methods b = ground arith
method_eq_iff (other a) b = ground arith
