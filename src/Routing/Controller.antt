-- ===== src/Routing/Controller.antt =====
-- `ControllerMetadata` of nivasa-routing/src/lib.rs.
use nivasa.Prelude.{if◌then◌else◌, is_empty, Text, trim, Option, none, some, ◌∷◌}
use nivasa.Routing.Path.{slash, normalize_path, merge_route_paths, version_segment}

pub record ControllerMetadata : Type 0 where
  pub path : Text
  pub version : Option Text

unfoldable pub new : Text → ControllerMetadata
new path = record { path = normalize_path path; version = none }

unfoldable pub with_version : ControllerMetadata → Text → ControllerMetadata
with_version self version = record self {
  version = if is_empty (trim version) then none else some version;
}

unfoldable pub versioned_path : ControllerMetadata → Text
versioned_path self = elim self.version [
  | some version ↦ merge_route_paths (slash ∷ version_segment version) self.path
  | none ↦ self.path
]

unfoldable pub route_path : ControllerMetadata → Text → Text
route_path self path = merge_route_paths self.path path

unfoldable pub versioned_route_path : ControllerMetadata → Text → Text
versioned_route_path self path = merge_route_paths (versioned_path self) path
