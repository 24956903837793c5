-- ===== src/Examples/Registries.antt =====
-- Tests and witnesses for the module registry: an application module that imports one module twice
-- and another that is not registered, beside a global module.
use nivasa.Prelude.{
  ◌==◌, is_some, all, ok, err, codes, insert_by, sort_by, mem, IsDistinct, lookup, done, ℕ, ◌≡◌,
  refl, ◌≢◌, ◌⊎◌, true, false, ◌&&◌, ◌||◌, not, none, some, List, [], ◌∷◌,
}
use nivasa.Core.Modules.{
  DynamicModule, ModuleEntry, ModuleRegistry, missing_import, empty_metadata, merged_metadata,
  push_missing, register_module, global_module_ids, import_sources_by_id, import_sources_of,
  add_imports, add_globals,
}
use nivasa.Core.Modules.Controllers.{route_registration, with_throttle, skip_throttle}
use nivasa.Core.Modules.Surface.{
  exported_surface_for, public_surface_for, open_surface, import_surfaces, close_surface,
  collect_exports,
}
use nivasa.Core.Modules.Exports.{IsSurface, exported_surface_for_lem}
use nivasa.Core.Modules.Total.{exported_surface_for_total}
use nivasa.Core.Modules.Sources.{is_global_id, import_sources_by_id_lem}

abbrev app : ModuleEntry
app = record {
  type_id = 1;
  type_name = codes "App";
  metadata = record empty_metadata { imports = 2 ∷ 2 ∷ [] };
}

abbrev shared : ModuleEntry
shared = record { type_id = 2; type_name = codes "Shared"; metadata = empty_metadata }

abbrev events : ModuleEntry
events = record {
  type_id = 3;
  type_name = codes "Events";
  metadata = record empty_metadata { is_global = true };
}

abbrev registry : ModuleRegistry
registry = (1, app) ∷ (2, shared) ∷ (3, events) ∷ []

registers :
    (register_module
      (register_module [] 2 (codes "Shared") empty_metadata).0
      2
      (codes "Shared")
      empty_metadata).1
    ≡ false
unfolding register_module
registers = refl

sources_of_app : import_sources_by_id registry 1 ≡ some (ok (2 ∷ 3 ∷ []))
unfolding import_sources_by_id import_sources_of add_imports add_globals global_module_ids sort_by
    insert_by
sources_of_app = refl

missing_shared :
    import_sources_by_id ((1, app) ∷ []) 1 ≡ some (err (missing_import (codes "App") 2))
unfolding import_sources_by_id import_sources_of add_imports add_globals global_module_ids
missing_shared = refl

import_sources_by_id_lem_example :
    ((sources : List ℕ) × (import_sources_by_id registry 1 ≡ some (ok sources))
      × (all (λ id. is_some (lookup id registry)) (2 ∷ 2 ∷ []) ≡ true)
      × IsDistinct sources
      × ((x : ℕ)
          → mem x sources ≡ (mem x (2 ∷ 2 ∷ []) || (is_global_id registry x && not (x == 1)))))
    ⊎ ((missing : ℕ) × (import_sources_by_id registry 1
          ≡ some (err (missing_import (codes "App") missing)))
        × (mem missing (2 ∷ 2 ∷ []) ≡ true)
        × (lookup missing registry ≡ none))
import_sources_by_id_lem_example = import_sources_by_id_lem registry 1 app refl

abbrev dynamic : DynamicModule
dynamic = record {
  metadata = record empty_metadata { providers = 5 ∷ 6 ∷ [] };
  dynamic_providers = 6 ∷ 7 ∷ 7 ∷ [];
  pre_bootstrap = none;
}

merges : (merged_metadata dynamic).providers ≡ 5 ∷ 6 ∷ 7 ∷ []
unfolding merged_metadata push_missing
merges = refl

-- A module that exports what it provides and what its import exports.
abbrev layered : ModuleRegistry
layered =
    (
      1,
      record app {
        metadata = record empty_metadata {
          imports = 2 ∷ [];
          providers = 10 ∷ [];
          exports = 10 ∷ 20 ∷ [];
        };
      },
    )
    ∷ (
      2,
      record shared { metadata = record empty_metadata { providers = 20 ∷ []; exports = 20 ∷ [] } },
    )
    ∷ []

surface_of_app : exported_surface_for layered 1 ≡ done (20 ∷ 10 ∷ [])
unfolding exported_surface_for public_surface_for open_surface import_surfaces close_surface
    collect_exports
surface_of_app = refl

exported_surface_for_lem_example : IsSurface layered 1 (20 ∷ 10 ∷ [])
exported_surface_for_lem_example = exported_surface_for_lem layered 1 (20 ∷ 10 ∷ []) surface_of_app

exported_surface_for_total_example : exported_surface_for layered 1 ≢ none
exported_surface_for_total_example = exported_surface_for_total layered 1 refl

-- A throttle that is set after skipping stands beside the skip.
throttled_later :
    (with_throttle
      (skip_throttle
        (with_throttle (route_registration (codes "GET") (codes "/") (codes "list")) 5 60))
      7
      10)
    ≡ record (route_registration (codes "GET") (codes "/") (codes "list")) {
      throttle = some (record { limit = 7; ttl_secs = 10 });
      skips_throttle = true;
    }
unfolding with_throttle skip_throttle route_registration
throttled_later = refl
