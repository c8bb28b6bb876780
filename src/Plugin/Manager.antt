-- ===== src/Plugin/Manager.antt =====
-- `PluginManager` of plugin/manager.py. `loaded` is the keys of `_loaded`: each maps to the manifest,
-- which is the registry's object, and to a runtime that nothing reads.
pub mod Laws
use fusion_code_modelization.Common.{
  String, Bool, true, false, Option, none, some, List, [], ◌∷◌, ◌++◌, filter, map, contains, not,
  ◌==◌, if◌then◌else◌,
}
use fusion_code_modelization.Common.Dict
use fusion_code_modelization.Common.Dict.{Dict}
use fusion_code_modelization.Plugin.Registry.{
  PluginStatus, installed, loaded, is_disabled, PluginAction, PluginManifest, PluginRegistry,
  put_plugin, list_plugins,
}

pub record PluginManager : Type 0 where
  pub registry : PluginRegistry
  pub loaded_ids : Dict (Dict String)

abbrev pub set_status : PluginRegistry → String → PluginStatus → PluginManifest → PluginRegistry
set_status r pid st p = put_plugin r pid (record p { status = st })

-- `load`: the status is changed, but not saved.
unfoldable pub load : PluginManager → String → PluginManager × Bool
load m pid = elim (Dict.get m.registry.plugins pid) [
  | none ↦ (m, false)
  | some p ↦ if is_disabled p.status then (m, false) else (
    record {
      registry = set_status m.registry pid PluginStatus.loaded p;
      loaded_ids = Dict.set m.loaded_ids pid [];
    },
    true,
  )
]

abbrev pub installed_again : PluginRegistry → String → Option PluginManifest → PluginRegistry
installed_again r pid none = r
installed_again r pid (some p) = set_status r pid installed p

unfoldable pub unload : PluginManager → String → PluginManager × Bool
unload m pid =
    if Dict.has m.loaded_ids pid
    then (
      record {
        registry = installed_again m.registry pid (Dict.get m.registry.plugins pid);
        loaded_ids = Dict.remove m.loaded_ids pid;
      },
      true,
    )
    else (m, false)

abbrev pub action_names : PluginManifest → List String
action_names p = map (λ a. a.name) p.actions

-- The answers of `execute`: three errors, and the action that ran with the name of its plugin.
pub data Outcome : Type 0 where
  not_loaded not_in_registry not_available : Outcome
  completed : String → String → String → Dict String → Outcome

abbrev or_no_params : Option (Dict String) → Dict String
or_no_params none = []
or_no_params (some params) = params

unfoldable pub execute : PluginManager → String → String → Option (Dict String) → Outcome
execute m pid action params =
    if not (Dict.has m.loaded_ids pid) then not_loaded else elim (Dict.get m.registry.plugins pid) [
      | none ↦ not_in_registry
      | some p ↦
          if not (contains (action_names p) action)
          then not_available
          else completed pid action p.name (or_no_params params)
    ]

pub record PluginReport : Type 0 where
  pub name : String
  pub status : PluginStatus
  pub is_loaded : Bool
  pub actions : List String

abbrev report_all : PluginManager → List PluginManifest → Dict PluginReport → Dict PluginReport
report_all m [] reports = reports
report_all m (p ∷ ps) reports = report_all m ps (
    Dict.set reports p.plugin_id (record {
      name = p.name;
      status = p.status;
      is_loaded = Dict.has m.loaded_ids p.plugin_id;
      actions = action_names p;
    }))

unfoldable pub get_plugin_status : PluginManager → Dict PluginReport
get_plugin_status m = report_all m (list_plugins m.registry none) []
