-- ===== src/Core/Modules/Controllers.antt =====
-- The route registrations of controllers in nivasa-core/src/module/mod.rs.
use nivasa.Prelude.{Text, ℕ, Bool, true, false, Option, none, some, List}

pub record RouteThrottleRegistration : Type 0 where
  pub limit : ℕ
  pub ttl_secs : ℕ

pub record ControllerRouteRegistration : Type 0 where
  pub method : Text
  pub path : Text
  pub handler : Text
  pub throttle : Option RouteThrottleRegistration
  pub skips_throttle : Bool

pub record ModuleControllerRegistration : Type 0 where
  pub controller : ℕ
  pub routes : List ControllerRouteRegistration
  pub middlewares : List ℕ

unfoldable pub route_registration : Text → Text → Text → ControllerRouteRegistration
route_registration method path handler = record {
  method = method;
  path = path;
  handler = handler;
  throttle = none;
  skips_throttle = false;
}

unfoldable pub with_throttle : ControllerRouteRegistration → ℕ → ℕ → ControllerRouteRegistration
with_throttle self limit ttl_secs = record self {
  throttle = some (record { limit = limit; ttl_secs = ttl_secs });
}

unfoldable pub skip_throttle : ControllerRouteRegistration → ControllerRouteRegistration
skip_throttle self = record self { skips_throttle = true; throttle = none }
