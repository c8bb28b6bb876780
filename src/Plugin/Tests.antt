-- ===== src/Plugin/Tests.antt =====
-- Runs of the plugin manager at concrete inputs.
use fusion_code_modelization.Common.{◌≡◌, ◌≢◌, ◌⊎◌, All, refl, true, false, none, some, [], ◌∷◌}
use fusion_code_modelization.Common.Dict
use fusion_code_modelization.Common.Dict.{Dict}
use fusion_code_modelization.Plugin.Registry.{
  PluginStatus, testing, installed, disabled, PluginManifest, register, unregister, list_plugins,
  search_plugins, disable, load_registry,
}
use fusion_code_modelization.Plugin.Manager.{
  PluginManager, load, unload, not_loaded, execute, get_plugin_status,
}
use fusion_code_modelization.Plugin.Manager.Laws.{with_registry, IsBarred, Runs, execute-load}

program : Unit {0}
unfolding register unregister list_plugins search_plugins disable load_registry load unload execute
    get_plugin_status Dict.get Dict.set Dict.remove
program = tt

abbrev lint : PluginManifest
lint = record {
  plugin_id = "p1";
  name = "Lint";
  version = "1.0.0";
  category = testing;
  description = "";
  author = "";
  homepage = "";
  actions = record { name = "run"; description = ""; params_schema = [] } ∷ [];
  installed_at = "t0";
  status = installed;
  config = [];
}

abbrev nothing : PluginManager
nothing = record { registry = record { plugins = []; registry_file = none }; loaded_ids = [] }

abbrev manager : PluginManager
manager = with_registry nothing (register nothing.registry lint)

abbrev ready : PluginManager
ready = (load manager "p1").0

there : Dict.get manager.registry.plugins "p1" ≡ some lint
unfolding program
there = refl

still_there :
    Dict.get ready.registry.plugins "p1" ≡ some (record lint { status = PluginStatus.loaded })
unfolding program
still_there = refl

-- Without `load` nothing runs; a plugin that is unregistered is found by no listing.
small :
    (execute manager "p1" "run" none ≡ not_loaded)
    × (list_plugins (unregister manager.registry "p1").0 none ≡ [])
    × ((load_registry (register nothing.registry lint)).plugins ≡ ("p1", lint) ∷ [])
unfolding program
small = (refl, refl, refl)

execute-load_example :
    (IsBarred (Dict.get manager.registry.plugins "p1") × (load manager "p1" ≡ (manager, false)))
    ⊎ ((p : PluginManifest) × (Dict.get manager.registry.plugins "p1" ≡ some p)
        × (p.status ≢ disabled)
        × ((load manager "p1").1 ≡ true)
        × All (Runs manager "p1" p [] (load manager "p1").0) p.actions)
execute-load_example = execute-load manager "p1" []

is_loaded : Dict.has ready.loaded_ids "p1" ≡ true
unfolding program
is_loaded = refl
