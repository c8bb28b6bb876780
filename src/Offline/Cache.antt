-- ===== src/Offline/Cache.antt =====
-- offline/cache.py. A size is in bytes, of which the megabytes of the source are exact fractions, and a
-- time is in whole units of the clock. `dirs` are the directories that are there, `index_file` is what
-- this object has written to index.json, none before that. An id is a plain name, and a directory is made and its marker written without an
-- error.
pub mod Gets
pub mod Index
pub mod Bound
use Prim.Native.String
use fusion_code_modelization.Common.{
  ℕ, zero, suc, ◌+◌, ◌-◌, String, Bool, true, false, Option, none, some, List, [], ◌∷◌, ◌++◌,
  length, ltb, leb, not, ◌&&◌, ◌||◌, foldl, contains, if◌then◌else◌,
}
use fusion_code_modelization.Common.Dict
use fusion_code_modelization.Common.Dict.{Dict}

pub record CacheEntry : Type 0 where
  pub resource_type : String
  pub resource_id : String
  pub path : String
  pub size : ℕ
  pub cached_at : ℕ

pub record OfflineCache : Type 0 where
  pub cache_dir : String
  pub entries : Dict CacheEntry
  pub default_ttl : ℕ
  pub hits : ℕ
  pub misses : ℕ
  pub dirs : List String
  pub markers : Dict String
  pub index_file : Option (Dict CacheEntry)

-- The loop of `_load_index`: an entry that lacks a key ends it, and those before it stay.
abbrev read_entries : List (String × Option CacheEntry) → Dict CacheEntry
read_entries [] = []
read_entries ((key, none) ∷ rest) = []
read_entries ((key, some e) ∷ rest) = (key, e) ∷ read_entries rest

abbrev loaded : Option (List (String × Option CacheEntry)) → Dict CacheEntry
loaded none = []
loaded (some values) = read_entries values

-- `__init__` with `_load_index`: the index is none where there is no file or no JSON in it, and an
-- entry in it is none where it lacks a key.
unfoldable pub new_cache :
    String
    → ℕ
    → List String
    → Dict String
    → Option (List (String × Option CacheEntry))
    → OfflineCache
new_cache cache_dir default_ttl dirs markers index = record {
  cache_dir = cache_dir;
  entries = loaded index;
  default_ttl = default_ttl;
  hits = 0;
  misses = 0;
  dirs = dirs;
  markers = markers;
  index_file = none;
}

-- `source_path`: none, one that does not exist, a file of so many bytes, or a directory
pub data Source : Type 0 where
  no_source : Source
  not_there a_directory : String → Source
  a_file : String → ℕ → Source

abbrev pub join : String → String → String
join s t = String.◌++◌ s t

-- `f"{resource_type}:{resource_id}"`
abbrev pub key_for : String → String → String
key_for resource_type resource_id = join resource_type (join ":" resource_id)

abbrev pub key_of : CacheEntry → String
key_of e = key_for e.resource_type e.resource_id

abbrev pub save_index : OfflineCache → OfflineCache
save_index c = record c { index_file = some c.entries }

abbrev size_of : Source → ℕ
size_of (a_file src size) = size
size_of _ = 0

abbrev marked : Dict String → String → String → Source → Dict String
marked markers dir id no_source = Dict.set markers (join dir "/.cached") id
marked markers dir id (not_there src) = markers
marked markers dir id (a_directory src) =
    Dict.set markers (join dir "/.downloaded") (join id (join "\n" src))
marked markers dir id (a_file src size) =
    Dict.set markers (join dir "/.downloaded") (join id (join "\n" src))

abbrev cache_resource : OfflineCache → String → String → String → Source → ℕ → OfflineCache
cache_resource c kind folder id source now =
    let dir = join c.cache_dir (join folder id) in
    let entry : CacheEntry = record {
      resource_type = kind;
      resource_id = id;
      path = dir;
      size = size_of source;
      cached_at = now;
    } in
    save_index (record c {
      entries = Dict.set c.entries (key_for kind id) entry;
      dirs = dir ∷ c.dirs;
      markers = marked c.markers dir id source;
    })

unfoldable pub cache_model : OfflineCache → String → Source → ℕ → OfflineCache
cache_model c id source now = cache_resource c "model" "/models/" id source now

unfoldable pub cache_plugin : OfflineCache → String → Source → ℕ → OfflineCache
cache_plugin c id source now = cache_resource c "plugin" "/plugins/" id source now

-- `ttl > 0 and now - cached_at > ttl`
abbrev pub expired : ℕ → ℕ → CacheEntry → Bool
expired ttl now e = ltb 0 ttl && ltb (e.cached_at + ttl) now

abbrev pub miss : OfflineCache → OfflineCache
miss c = record c { misses = c.misses + 1 }

abbrev pub forget : OfflineCache → String → OfflineCache
forget c key = miss (save_index (record c { entries = Dict.remove c.entries key }))

abbrev ttl_or : ℕ → Option ℕ → ℕ
ttl_or default none = default
ttl_or default (some ttl) = ttl

abbrev pub get_entry :
    OfflineCache → String → ℕ → ℕ → Option CacheEntry → OfflineCache × Option CacheEntry
get_entry c key ttl now none = (miss c, none)
get_entry c key ttl now (some e) =
    if expired ttl now e
    then (forget c key, none)
    else (if contains c.dirs e.path
        then (record c { hits = c.hits + 1 }, some e)
        else (forget c key, none))

unfoldable pub get :
    OfflineCache → String → String → Option ℕ → ℕ → OfflineCache × Option CacheEntry
get c resource_type resource_id ttl now =
    let key = key_for resource_type resource_id in
    get_entry c key (ttl_or c.default_ttl ttl) now (Dict.get c.entries key)

-- `hit_rate`: 0.0, or the hits by all gets, rounded to four places
pub data HitRate : Type 0 where
  no_gets : HitRate
  rounded : (hits gets : ℕ) → HitRate

pub record Stats : Type 0 where
  pub entries : ℕ
  pub hits : ℕ
  pub misses : ℕ
  pub hit_rate : HitRate

unfoldable pub stats : OfflineCache → Stats
stats c = record {
  entries = length c.entries;
  hits = c.hits;
  misses = c.misses;
  hit_rate = if ltb 0 (c.hits + c.misses) then rounded c.hits (c.hits + c.misses) else no_gets;
}

unfoldable pub list_cached : OfflineCache → List CacheEntry
list_cached c = Dict.values c.entries

abbrev pub total : List CacheEntry → ℕ
total [] = 0
total (e ∷ es) = e.size + total es

abbrev insert_by_age : CacheEntry → List CacheEntry → List CacheEntry
insert_by_age e [] = e ∷ []
insert_by_age e (d ∷ ds) =
    let rest = insert_by_age e ds in if leb e.cached_at d.cached_at then e ∷ d ∷ ds else d ∷ rest

-- `sorted(…, key=lambda e: e.cached_at)`, which keeps the order of entries of one time
abbrev pub sort_by_age : List CacheEntry → List CacheEntry
sort_by_age [] = []
sort_by_age (e ∷ es) = insert_by_age e (sort_by_age es)

pub record Cleanup : Type 0 where
  pub entries : Dict CacheEntry
  pub removed : ℕ
  pub freed : ℕ
  pub left : ℕ

-- A round of the loop, where `left` is `total_size`: once that is small enough, the rounds that the
-- source breaks off change nothing.
unfoldable pub clean_one : ℕ → Cleanup → CacheEntry → Cleanup
clean_one max s e = if leb s.left max || not (Dict.has s.entries (key_of e)) then s else (record {
  entries = Dict.remove s.entries (key_of e);
  removed = s.removed + 1;
  freed = s.freed + e.size;
  left = s.left - e.size;
})

unfoldable pub cleanup_cache : OfflineCache → ℕ → OfflineCache × Cleanup
cleanup_cache c max =
    let begin : Cleanup = record {
      entries = c.entries;
      removed = 0;
      freed = 0;
      left = total (Dict.values c.entries);
    } in
    if leb (total (Dict.values c.entries)) max
    then (c, begin)
    else (let done = foldl (clean_one max) begin (sort_by_age (Dict.values c.entries)) in
        (save_index (record c { entries = done.entries }), done))
