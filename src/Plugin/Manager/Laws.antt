-- ===== src/Plugin/Manager/Laws.antt =====
-- Which plugins of plugin/manager.py load and run.
use fusion_code_modelization.Common.{
  String, ◌⊎◌, ◌≡◌, refl, ap, ◌∙◌, Bool, true, false, Option, none, some, [], contains, not, arith,
  All, ◌≢◌, sym, List, ◌∷◌, ◌++◌, map, Bool-cases, Option-cases, inl, inr, if◌then◌else◌, same_text,
}
use mathlib.Core.Bool.{true≢false}
use mathlib.Core.List.{append_assoc}
use fusion_code_modelization.Common.Dict
use fusion_code_modelization.Common.Dict.{Dict, get-set, get-remove}
use fusion_code_modelization.Plugin.Registry.{
  PluginStatus, PluginAction, installed, disabled, is_disabled, PluginManifest, PluginRegistry,
  edit_plugin, disable,
}
use fusion_code_modelization.Plugin.Manager.{
  PluginManager, installed_again, load, unload, action_names, completed, execute,
}

abbrev pub status_of : Option PluginManifest → Option PluginStatus
status_of none = none
status_of (some p) = some p.status

abbrev pub with_registry : PluginManager → PluginRegistry → PluginManager
with_registry m r = record m { registry = r }

-- The plugin is registered and not disabled.
abbrev pub may_load : Option PluginManifest → Bool
may_load none = false
may_load (some p) = not (is_disabled p.status)

-- `load` answers whether the plugin is registered and not disabled; where it is not, nothing changes.
pub load_lem :
    (m : PluginManager) (pid : String)
    → ((load m pid).1 ≡ may_load (Dict.get m.registry.plugins pid))
      × (((load m pid).1 ≡ true) ⊎ ((load m pid).0 ≡ m))
unfolding load
load_lem m pid = elim (Option-cases (Dict.get m.registry.plugins pid)) [
  | inl unknown ↦ (rw (unknown, load), inr (rw (unknown, load)))
  | inr (p, known) ↦ elim (Bool-cases (is_disabled p.status)) [
    | inl y ↦ (rw (known, load, y), inr (rw (known, load, y)))
    | inr n ↦ (rw (known, load, n), inl (rw (known, load, n)))
  ]
]

contains-names : (before after : List String) (n : String) → contains (before ++ n ∷ after) n ≡ true
contains-names [] after n = rw (same_text n)
contains-names (x ∷ before) after n = ground (arith, contains-names before after n)

-- Each action of the list answers, where the actions of the plugin are these after some others.
module _ (m : PluginManager) (pid : String) (p : PluginManifest) (params : Dict String) where
  abbrev pub Runs : PluginManager → PluginAction → Type 0
  Runs m' a = execute m' pid a.name (some params) ≡ completed pid a.name p.name params

  loaded-Runs :
      (before : List String) (actions : List PluginAction)
      → Dict.get m.registry.plugins pid ≡ some p
      → is_disabled p.status ≡ false
      → action_names p ≡ before ++ map (λ a. a.name) actions
      → All (Runs (load m pid).0) actions
  unfolding load execute
  loaded-Runs before [] h e names = tt
  loaded-Runs before (a ∷ actions) h e names =
      let there : contains (action_names p) a.name ≡ true =
        rw names (contains-names before (map (λ b. b.name) actions) a.name) in
      (
        rw (h, load, e)
            (rw (get-set m.loaded_ids pid pid []) (
              rw (same_text pid) (
                rw (get-set m.registry.plugins pid pid (record p { status = PluginStatus.loaded }))
                  (rw (same_text pid) (rw there))))),
        loaded-Runs (before ++ a.name ∷ []) actions h e
            (names ∙ sym (append_assoc before (a.name ∷ []) (map (λ b. b.name) actions))),
      )

-- Why a plugin does not load.
abbrev pub IsBarred : Option PluginManifest → Type 0
IsBarred o = (o ≡ none) ⊎ ((p : PluginManifest) × (o ≡ some p) × (p.status ≡ disabled))

is_disabled-disabled : (st : PluginStatus) → is_disabled st ≡ true → st ≡ disabled
is_disabled-disabled disabled h = refl
is_disabled-disabled _ h = cc

enabled : (st : PluginStatus) → is_disabled st ≡ false → st ≢ disabled
enabled st h e = true≢false (sym (ap is_disabled e) ∙ h)

-- Either the plugin is not registered or disabled, and then `load` answers false and changes nothing;
-- or it is registered and not disabled, and then `load` answers true and afterwards each of its actions
-- runs, with whatever parameters.
pub execute-load :
    (m : PluginManager) (pid : String) (params : Dict String)
    → (IsBarred (Dict.get m.registry.plugins pid) × (load m pid ≡ (m, false)))
      ⊎ ((p : PluginManifest) × (Dict.get m.registry.plugins pid ≡ some p)
          × (p.status ≢ disabled)
          × ((load m pid).1 ≡ true)
          × All (Runs m pid p params (load m pid).0) p.actions)
unfolding load
execute-load m pid params = elim (Option-cases (Dict.get m.registry.plugins pid)) [
  | inl unknown ↦ inl (inl unknown, rw (unknown, load))
  | inr (p, known) ↦ elim (Bool-cases (is_disabled p.status)) [
    | inl y ↦ inl (inr (p, known, is_disabled-disabled p.status y), rw (known, load, y))
    | inr n ↦ inr (
      p,
      known,
      enabled p.status n,
      rw (known, load, n),
      loaded-Runs m pid p params [] p.actions known n refl,
    )
  ]
]

-- To disable a plugin that is loaded does not stop it: whatever an action of it answered before, it
-- answers afterwards, though the plugin is recorded as disabled, in the file too.
pub execute-disable :
    (m : PluginManager) (pid action : String) (params : Option (Dict String)) (p : PluginManifest)
    → Dict.get m.registry.plugins pid ≡ some p
    → (execute (with_registry m (disable m.registry pid).0) pid action params
        ≡ execute m pid action params)
      × (status_of (Dict.get (disable m.registry pid).0.plugins pid) ≡ some disabled)
      × ((disable m.registry pid).0.registry_file ≡ some (disable m.registry pid).0.plugins)
unfolding execute disable
execute-disable m pid action params p h =
    let law =
      get-set m.registry.plugins pid pid (record p { status = disabled })
      ∙ ap
          (λ b.
            if b then some (record p { status = disabled }) else Dict.get m.registry.plugins pid)
          (same_text pid) in
    (rw (h, edit_plugin) (rw law refl), rw (h, edit_plugin) (ap status_of law), rw (h, edit_plugin))

after_unload :
    (m : PluginManager) (pid : String) (p : PluginManifest)
    → Dict.get m.registry.plugins pid ≡ some p
    → Dict.has m.loaded_ids pid ≡ true
    → Dict.get (unload m pid).0.registry.plugins pid ≡ some (record p { status = installed })
unfolding unload
after_unload m pid p h l =
    rw (l, unload)
      (rw (h, installed_again)
        (rw (get-set m.registry.plugins pid pid (record p { status = installed }))
          (rw (same_text pid))))

after_disable :
    (r : PluginRegistry) (pid : String) (p : PluginManifest)
    → Dict.get r.plugins pid ≡ some p
    → Dict.get (disable r pid).0.plugins pid ≡ some (record p { status = disabled })
unfolding disable
after_disable r pid p h =
    rw (h, edit_plugin)
      (rw (get-set r.plugins pid pid (record p { status = disabled })) (rw (same_text pid)))

-- To unload a plugin that was disabled while it was loaded enables it again: before, it cannot be
-- loaded, and afterwards it can.
pub load-unload-disable :
    (m : PluginManager) (pid : String) (p : PluginManifest)
    → Dict.get m.registry.plugins pid ≡ some p
    → Dict.has m.loaded_ids pid ≡ true
    → ((load (with_registry m (disable m.registry pid).0) pid).1 ≡ false)
      × ((load (unload (with_registry m (disable m.registry pid).0) pid).0 pid).1 ≡ true)
load-unload-disable m pid p h l =
    let m' = with_registry m (disable m.registry pid).0 in
    let there = after_disable m.registry pid p h in
    (
      (load_lem m' pid).0 ∙ ap may_load there,
      (load_lem (unload m' pid).0 pid).0
          ∙ ap may_load (after_unload m' pid (record p { status = disabled }) there l),
    )
