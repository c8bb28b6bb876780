-- ===== src/Offline/Tests.antt =====
-- Runs of offline/cache.py.
use fusion_code_modelization.Common.{ℕ, ◌≤◌, String, ◌≡◌, ◌⊎◌, refl, none, some, List, [], ◌∷◌}
use fusion_code_modelization.Common.Dict
use fusion_code_modelization.Common.Dict.{Dict}
use fusion_code_modelization.Offline.Cache.{
  CacheEntry, OfflineCache, a_file, no_source, new_cache, cache_model, cache_plugin, get, clean_one,
  cleanup_cache, total,
}
use fusion_code_modelization.Offline.Cache.Index.{IsIndex}
use fusion_code_modelization.Offline.Cache.Bound.{IsCleaned, cleanup_cache-IsCleaned}
use fusion_code_modelization.Offline.Cache.Gets.{
  IsHit, IsAbsent, IsForgotten, get_lem, CacheCall, model_call, plugin_call, get_call, clean_call,
  gone_call, cache_call, cache_calls, IsCounted, cache_calls-IsCounted,
}

abbrev empty : OfflineCache
empty = new_cache "c" 100 [] [] none

-- The model is hit at 50 and expired at 102; the directory of the plugin is gone.
abbrev calls : List CacheCall
calls =
    model_call "m" (a_file "f" 70) 1
    ∷ plugin_call "p" no_source 2
    ∷ get_call "model" "m" none 50
    ∷ get_call "model" "m" none 102
    ∷ gone_call "c/plugins/p"
    ∷ get_call "plugin" "p" none 60
    ∷ clean_call 10
    ∷ []

abbrev after : OfflineCache
after = cache_calls empty calls

test_after : (after.entries ≡ []) × (after.hits ≡ 1) × (after.misses ≡ 2)
unfolding new_cache cache_calls cache_call cache_model cache_plugin get cleanup_cache Dict.get
    Dict.set Dict.remove
test_after = (refl, refl, refl)

empty-IsCounted : IsCounted 0 empty
unfolding new_cache
empty-IsCounted = (tt, refl)

cache_calls-IsCounted_example : IsCounted 3 after
cache_calls-IsCounted_example = cache_calls-IsCounted calls 0 empty empty-IsCounted

get_lem_example :
    IsHit after "model:m" 7 9 (get after "model" "m" (some 7) 9)
    ⊎ IsAbsent after "model:m" (get after "model" "m" (some 7) 9)
    ⊎ IsForgotten after "model:m" 7 9 (get after "model" "m" (some 7) 9)
get_lem_example = get_lem after "model" "m" (some 7) 9

abbrev entry : String → ℕ → ℕ → CacheEntry
entry id size at = record {
  resource_type = "model";
  resource_id = id;
  path = id;
  size = size;
  cached_at = at;
}

abbrev three : OfflineCache
three = record empty {
  entries =
      ("model:a", entry "a" 5 30) ∷ ("model:b", entry "b" 6 10) ∷ ("model:c", entry "c" 7 20) ∷ [];
}

three-IsIndex : IsIndex three.entries
unfolding new_cache Dict.get
three-IsIndex = (refl, refl, (refl, refl, (refl, refl, tt)))

test_cleaned : Dict.keys (cleanup_cache three 12).0.entries ≡ "model:a" ∷ "model:c" ∷ []
unfolding new_cache cleanup_cache clean_one Dict.get Dict.remove
test_cleaned = refl

cleanup_cache-IsCleaned_example :
    IsCleaned three.entries (cleanup_cache three 12).1
    × ((cleanup_cache three 12).0.entries ≡ (cleanup_cache three 12).1.entries)
    × (total (Dict.values (cleanup_cache three 12).0.entries) ≤ 12)
cleanup_cache-IsCleaned_example = cleanup_cache-IsCleaned three 12 three-IsIndex

-- A damaged entry hides those after it.
test_damaged :
    (new_cache "c" 100 [] []
      (some (("m", some (entry "m" 1 2)) ∷ ("n", none) ∷ ("o", some (entry "o" 1 2)) ∷ []))).entries
    ≡ ("m", entry "m" 1 2) ∷ []
unfolding new_cache
test_damaged = refl
