-- ===== src/Offline/Cache/Gets.antt =====
-- What a `get` of offline/cache.py returns, and what any calls keep.
use fusion_code_modelization.Common.{
  ℕ, suc, ◌+◌, ◌≤◌, ◌<◌, String, true, false, ◌≡◌, ◌⊎◌, refl, sym, ◌∙◌, inl, inr, Option, none,
  some, List, [], ◌∷◌, filter, not, ◌==◌, eq_iff, contains, arith, Bool-cases, if◌then◌else◌, leb,
}
use fusion_code_modelization.Common.Dict
use fusion_code_modelization.Common.Dict.{Dict, get-set, get-remove}
use fusion_code_modelization.Offline.Cache.{
  CacheEntry, OfflineCache, Source, key_for, key_of, cache_model, cache_plugin, expired, get,
  get_entry, forget, ttl_or, cleanup_cache, total,
}
use fusion_code_modelization.Offline.Cache.Index.{IsIndex, remove-IsIndex}
use fusion_code_modelization.Offline.Cache.Bound.{cleanup_cache-IsCleaned}

-- Stored entries do not expire, or its time is not over.
abbrev pub IsFresh : ℕ → ℕ → CacheEntry → Type 0
IsFresh ttl now e = (ttl ≡ 0) ⊎ (now ≤ e.cached_at + ttl)

-- A hit: the entry that is stored, fresh, with its directory there. Only the hits are counted up.
abbrev pub IsHit : OfflineCache → String → ℕ → ℕ → OfflineCache × Option CacheEntry → Type 0
IsHit c key ttl now r =
    (e : CacheEntry) × (r.1 ≡ some e)
    × (Dict.get c.entries key ≡ some e)
    × IsFresh ttl now e
    × (contains c.dirs e.path ≡ true)
    × (r.0 ≡ (record c { hits = c.hits + 1 }))

-- An entry that is not returned: its time is over, or its directory is gone.
abbrev pub IsStale : OfflineCache → ℕ → ℕ → CacheEntry → Type 0
IsStale c ttl now e = ((0 < ttl) × (e.cached_at + ttl < now)) ⊎ (contains c.dirs e.path ≡ false)

-- Nothing is stored, and only the misses are counted up.
abbrev pub IsAbsent : OfflineCache → String → OfflineCache × Option CacheEntry → Type 0
IsAbsent c key r =
    (r.1 ≡ none) × (Dict.get c.entries key ≡ none) × (r.0 ≡ (record c { misses = c.misses + 1 }))

-- A stale entry is forgotten, in the file too, and the others stay.
abbrev pub IsForgotten : OfflineCache → String → ℕ → ℕ → OfflineCache × Option CacheEntry → Type 0
IsForgotten c key ttl now r =
    (e : CacheEntry) × (r.1 ≡ none)
    × (Dict.get c.entries key ≡ some e)
    × IsStale c ttl now e
    × ((j : String) → Dict.get r.0.entries j ≡ (if key == j then none else Dict.get c.entries j))
    × (r.0.index_file ≡ some r.0.entries)
    × (r.0.misses ≡ c.misses + 1)
    × (r.0.hits ≡ c.hits)

module _ (c : OfflineCache) (key : String) (ttl now : ℕ) where
  forgotten :
      (e : CacheEntry)
      → Dict.get c.entries key ≡ some e
      → IsStale c ttl now e
      → IsForgotten c key ttl now (forget c key, none)
  forgotten e h stale = (e, refl, h, stale, λ j. get-remove c.entries key j, refl, refl, refl)

  get_entry_lem :
      (o : Option CacheEntry)
      → Dict.get c.entries key ≡ o
      → IsHit c key ttl now (get_entry c key ttl now o)
        ⊎ IsAbsent c key (get_entry c key ttl now o)
        ⊎ IsForgotten c key ttl now (get_entry c key ttl now o)
  get_entry_lem none h = inr (inl (refl, h, refl))
  get_entry_lem (some e) h = elim (Bool-cases (expired ttl now e)) [
    | inl y ↦ rw y (inr (inr (forgotten e h (inl (ground arith)))))
    | inr n ↦ elim (Bool-cases (contains c.dirs e.path)) [
      | inl y ↦ rw (n, y) (inl (e, refl, h, ground arith, y, refl))
      | inr k ↦ rw (n, k) (inr (inr (forgotten e h (inr k))))
    ]
  ]

-- A `get` has one of three outcomes. An entry is stored, its ttl is 0 or not over at that time, and its
-- directory is there: it is returned, and only the hits are counted up. No entry is stored: none is
-- returned, and only the misses are counted up. An entry is stored, but its ttl is above 0 and over, or
-- its directory is gone: none is returned, the entry is forgotten, in the index file too, the other
-- entries stay, and the misses are counted up. The ttl is the one given, or that of the cache.
pub get_lem :
    (c : OfflineCache) (resource_type resource_id : String) (ttl : Option ℕ) (now : ℕ)
    → IsHit c
        (key_for resource_type resource_id)
        (ttl_or c.default_ttl ttl)
        now
        (get c resource_type resource_id ttl now)
      ⊎ IsAbsent c (key_for resource_type resource_id) (get c resource_type resource_id ttl now)
      ⊎ IsForgotten c
          (key_for resource_type resource_id)
          (ttl_or c.default_ttl ttl)
          now
          (get c resource_type resource_id ttl now)
unfolding get
get_lem c resource_type resource_id ttl now =
    let key = key_for resource_type resource_id in
    get_entry_lem c key (ttl_or c.default_ttl ttl) now (Dict.get c.entries key) refl

-- `gone_call` is what others do to the directory: one of them is removed.
pub data CacheCall : Type 0 where
  model_call plugin_call : String → Source → ℕ → CacheCall
  get_call : String → String → Option ℕ → ℕ → CacheCall
  clean_call : ℕ → CacheCall
  gone_call : String → CacheCall

unfoldable pub cache_call : OfflineCache → CacheCall → OfflineCache
cache_call c (model_call id source now) = cache_model c id source now
cache_call c (plugin_call id source now) = cache_plugin c id source now
cache_call c (get_call kind id ttl now) = (get c kind id ttl now).0
cache_call c (clean_call max) = (cleanup_cache c max).0
cache_call c (gone_call dir) = record c { dirs = filter (λ d. not (d == dir)) c.dirs }

unfoldable pub cache_calls : OfflineCache → List CacheCall → OfflineCache
cache_calls c [] = c
cache_calls c (x ∷ xs) = cache_calls (cache_call c x) xs

abbrev pub gets_in : List CacheCall → ℕ
gets_in [] = 0
gets_in (get_call kind id ttl now ∷ xs) = suc (gets_in xs)
gets_in (_ ∷ xs) = gets_in xs

set-IsIndex :
    (m : Dict CacheEntry) (k : String) (e : CacheEntry)
    → key_of e ≡ k
    → IsIndex m
    → IsIndex (Dict.set m k e)
unfolding Dict.set Dict.get
set-IsIndex [] k e own h = (own, refl, tt)
set-IsIndex ((j, d) ∷ m) k e own h = elim (Bool-cases (j == k)) [
  | inl y ↦ rw y (own ∙ sym ((eq_iff j k).0 y), h.1, h.2)
  | inr n ↦
      rw n (
        h.0,
        ground (arith, get-set m k j e, eq_iff j k, eq_iff k j, h.1),
        set-IsIndex m k e own h.2,
      )
]

-- Every key stands once, with its entry, and each `get` was counted.
abbrev pub IsCounted : ℕ → OfflineCache → Type 0
IsCounted n c = IsIndex c.entries × (c.hits + c.misses ≡ n)

get-IsCounted :
    (n : ℕ) (c : OfflineCache) (k : String) (ttl now : ℕ) (o : Option CacheEntry)
    → IsCounted n c
    → IsCounted (suc n) (get_entry c k ttl now o).0
get-IsCounted n c k ttl now none h = (h.0, omega (arith, h.1))
get-IsCounted n c k ttl now (some e) h = elim (Bool-cases (expired ttl now e)) [
  | inl y ↦ rw y (remove-IsIndex c.entries k h.0, omega (arith, h.1))
  | inr f ↦ elim (Bool-cases (contains c.dirs e.path)) [
    | inl y ↦ rw (f, y) (h.0, omega (arith, h.1))
    | inr m ↦ rw (f, m) (remove-IsIndex c.entries k h.0, omega (arith, h.1))
  ]
]

cleanup_cache-counts :
    (c : OfflineCache) (max : ℕ)
    → ((cleanup_cache c max).0.hits ≡ c.hits) × ((cleanup_cache c max).0.misses ≡ c.misses)
unfolding cleanup_cache
cleanup_cache-counts c max = elim (Bool-cases (leb (total (Dict.values c.entries)) max)) [
  | inl y ↦ rw y (refl, refl)
  | inr n ↦ rw n (refl, refl)
]

-- After any calls on a cache whose index has each key once with its entry, and whoever removes
-- directories between them, that is so still, and hits and misses have gone up by the number of gets.
pub cache_calls-IsCounted :
    (xs : List CacheCall) (n : ℕ) (c : OfflineCache)
    → IsCounted n c
    → IsCounted (n + gets_in xs) (cache_calls c xs)
unfolding cache_calls cache_call cache_model cache_plugin get
cache_calls-IsCounted [] n c h = (h.0, omega (arith, h.1))
cache_calls-IsCounted (model_call id source now ∷ xs) n c h =
    cache_calls-IsCounted xs n (cache_model c id source now)
      (set-IsIndex c.entries (key_for "model" id) _ refl h.0, h.1)
cache_calls-IsCounted (plugin_call id source now ∷ xs) n c h =
    cache_calls-IsCounted xs n (cache_plugin c id source now)
      (set-IsIndex c.entries (key_for "plugin" id) _ refl h.0, h.1)
cache_calls-IsCounted (get_call kind id ttl now ∷ xs) n c h =
    let key = key_for kind id in
    let h' = get-IsCounted n c key (ttl_or c.default_ttl ttl) now (Dict.get c.entries key) h in
    let more = cache_calls-IsCounted xs (suc n) (get c kind id ttl now).0 h' in
    (more.0, omega (arith, more.1))
cache_calls-IsCounted (clean_call max ∷ xs) n c h =
    let done = cleanup_cache-IsCleaned c max h.0 in
    let same = cleanup_cache-counts c max in
    cache_calls-IsCounted xs n (cleanup_cache c max).0
      (rw done.1 done.0.index, omega (arith, same.0, same.1, h.1))
cache_calls-IsCounted (gone_call dir ∷ xs) n c h = cache_calls-IsCounted xs n _ h
