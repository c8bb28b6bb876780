-- ===== src/Plugin/Registry.antt =====
-- plugin/models.py, and `PluginRegistry` of plugin/registry.py. `registry_file` is what registry.json
-- holds, none where there is no file. A manifest is one object, which the manager changes through
-- the registry too; so the registry's entry is its only copy here. Times are arguments, and the text
-- that `lower` makes is a parameter.
use fusion_code_modelization.Common.{
  String, Bool, true, false, Option, none, some, List, [], ◌∷◌, filter, ◌==◌, ◌||◌, if◌then◌else◌,
}
use fusion_code_modelization.Common.Dict
use fusion_code_modelization.Common.Dict.{Dict}
use fusion_code_modelization.Sandbox.Paths.{is_in}

pub data PluginCategory : Type 0 where
  database vcs project_management design testing ci_cd cloud security custom : PluginCategory

abbrev pub category_name : PluginCategory → String
category_name database = "database"
category_name vcs = "vcs"
category_name project_management = "project_management"
category_name design = "design"
category_name testing = "testing"
category_name ci_cd = "ci_cd"
category_name cloud = "cloud"
category_name security = "security"
category_name custom = "custom"

pub data PluginStatus : Type 0 where
  registered installed loaded error disabled : PluginStatus

abbrev pub is_disabled : PluginStatus → Bool
is_disabled disabled = true
is_disabled _ = false

pub record PluginAction : Type 0 where
  pub name : String
  pub description : String
  pub params_schema : Dict String

pub record PluginManifest : Type 0 where
  pub plugin_id : String
  pub name : String
  pub version : String
  pub category : PluginCategory
  pub description : String
  pub author : String
  pub homepage : String
  pub actions : List PluginAction
  pub installed_at : String
  pub status : PluginStatus
  pub config : Dict String

pub record PluginRegistry : Type 0 where
  pub plugins : Dict PluginManifest
  pub registry_file : Option (Dict PluginManifest)

-- `_save_registry`
abbrev pub save_registry : PluginRegistry → PluginRegistry
save_registry r = record r { registry_file = some r.plugins }

-- `_load_registry`: the entries of a file that is there are put in.
abbrev load_entries : Dict PluginManifest → Dict PluginManifest → Dict PluginManifest
load_entries plugins [] = plugins
load_entries plugins ((pid, p) ∷ data_) = load_entries (Dict.set plugins pid p) data_

abbrev pub load_file : Option (Dict PluginManifest) → Dict PluginManifest
load_file none = []
load_file (some data_) = load_entries [] data_

-- A new registry over the file of `r`.
unfoldable pub load_registry : PluginRegistry → PluginRegistry
load_registry r = record r { plugins = load_file r.registry_file }

abbrev pub put_plugin : PluginRegistry → String → PluginManifest → PluginRegistry
put_plugin r pid p = record r { plugins = Dict.set r.plugins pid p }

unfoldable pub register : PluginRegistry → PluginManifest → PluginRegistry
register r manifest = save_registry (put_plugin r manifest.plugin_id manifest)

unfoldable pub unregister : PluginRegistry → String → PluginRegistry × Bool
unregister r pid =
    if Dict.has r.plugins pid
    then (save_registry (record r { plugins = Dict.remove r.plugins pid }), true)
    else (r, false)

abbrev pub get_plugin : PluginRegistry → String → Option PluginManifest
get_plugin r pid = Dict.get r.plugins pid

unfoldable pub list_plugins : PluginRegistry → Option PluginCategory → List PluginManifest
list_plugins r none = Dict.values r.plugins
list_plugins r (some c) =
    filter (λ p. category_name p.category == category_name c) (Dict.values r.plugins)

unfoldable pub search_plugins : (String → String) → PluginRegistry → String → List PluginManifest
search_plugins lower r query =
    filter
      (λ p.
        is_in (lower query) (lower p.name)
        || is_in (lower query) (lower p.description)
        || is_in (lower query) (lower p.plugin_id))
      (Dict.values r.plugins)

-- A change of a plugin that is there, which is then saved.
abbrev pub edit_plugin :
    PluginRegistry → String → (PluginManifest → PluginManifest) → PluginRegistry × Bool
edit_plugin r pid f = elim (Dict.get r.plugins pid) [
  | none ↦ (r, false)
  | some p ↦ (save_registry (put_plugin r pid (f p)), true)
]

unfoldable pub install : PluginRegistry → String → PluginRegistry × Bool
install r pid = edit_plugin r pid (λ p. record p { status = installed })

abbrev pub new_version : String → PluginManifest → String
new_version version p = if version == "" then p.version else version

unfoldable pub update : String → PluginRegistry → String → String → PluginRegistry × Bool
update now r pid version =
    edit_plugin r pid (λ p. record p { version = new_version version p; installed_at = now })

unfoldable pub disable : PluginRegistry → String → PluginRegistry × Bool
disable r pid = edit_plugin r pid (λ p. record p { status = disabled })
