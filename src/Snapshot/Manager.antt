-- ===== src/Snapshot/Manager.antt =====
-- fusion_code_modelization/snapshot/manager.py. The snapshots are kept by id, apart from the project.
-- Times and new ids are arguments.
use Prim.Native.String.{compare}
use text.Mathlib.Text.{is_lt, starts_with}
use fusion_code_modelization.Common.{
  ℕ, ◌-◌, String, Bool, true, false, Option, none, some, List, [], ◌∷◌, ◌++◌, length, drop, filter,
  ltb, ◌==◌, ◌&&◌, map, if◌then◌else◌,
}
use fusion_code_modelization.Common.Dict
use fusion_code_modelization.Common.Dict.{Dict}
use fusion_code_modelization.Session.Store.{is_valid_id}
use fusion_code_modelization.Agent.Writer.{SafeWriter}
use fusion_code_modelization.Snapshot.Files.{Tree, collect_files}
use fusion_code_modelization.Snapshot.Delta.{FileDelta, Snapshot, compute_delta, apply_delta}

-- The snapshots of the directory: as JSON, and compressed.
pub record SnapshotDir : Type 0 where
  pub json : Dict Snapshot
  pub gz : Dict Snapshot

pub record SnapshotManager : Type 0 where
  pub writer : SafeWriter
  pub dir : SnapshotDir

-- `_save_snapshot`, whose file is named by the id
unfoldable pub save_snapshot : SnapshotManager → Snapshot → SnapshotManager
save_snapshot m s = record m { dir = record m.dir { json = Dict.set m.dir.json s.snapshot_id s } }

-- The pattern of an id is that of session/store.py.
unfoldable pub load_snapshot : SnapshotManager → String → Option Snapshot
load_snapshot m id = if is_valid_id id then Dict.get m.dir.json id else none

unfoldable pub delete_snapshot : SnapshotManager → String → SnapshotManager × Bool
delete_snapshot m id =
    if is_valid_id id && Dict.has m.dir.json id
    then (record m { dir = record m.dir { json = Dict.remove m.dir.json id } }, true)
    else (m, false)

-- `sort(key=created_at)`, which keeps the order of equal times
abbrev insert_snapshot : Snapshot → List Snapshot → List Snapshot
insert_snapshot s [] = s ∷ []
insert_snapshot s (t ∷ ts) =
    let rest = insert_snapshot s ts in
    if ltb s.created_at t.created_at then s ∷ t ∷ ts else t ∷ rest

abbrev sort_from : List Snapshot → List Snapshot → List Snapshot
sort_from sorted [] = sorted
sort_from sorted (s ∷ ss) = sort_from (insert_snapshot s sorted) ss

abbrev pub sort_snapshots : List Snapshot → List Snapshot
sort_snapshots ss = sort_from [] ss

-- The snapshots in `snap_*.json`.
unfoldable pub list_snapshots : SnapshotManager → List Snapshot
list_snapshots m =
    sort_snapshots (map (λ e. e.1) (filter (λ e. starts_with e.0 "snap_") m.dir.json))

-- `xs[-n]` at `n` of at least 1 and at most the length
abbrev pub nth_last : ℕ → List Snapshot → Option Snapshot
nth_last n ss = elim (drop (length ss - n) ss) [ [] ↦ none | s ∷ _ ↦ some s ]

abbrev load_listed : SnapshotManager → Option Snapshot → Option Snapshot
load_listed m none = none
load_listed m (some s) = load_snapshot m s.snapshot_id

-- `_load_latest_snapshot`
unfoldable pub load_latest_snapshot : SnapshotManager → Option Snapshot
load_latest_snapshot m = load_listed m (nth_last 1 (list_snapshots m))

-- What the parts outside of the program do for a snapshot.
pub record Outside : Type 0 where
  pub hash : String → String
  pub unified : String → String → String → String
  pub restore : String → List String

abbrev mark_deleted : Dict String → List FileDelta → Dict String
mark_deleted files [] = files
mark_deleted files (d ∷ ds) =
    mark_deleted (if d.is_deleted then Dict.set files d.path "" else files) ds

abbrev replay : Outside → Dict String → List FileDelta → Dict String
replay o files [] = files
replay o files (d ∷ ds) =
    replay o (Dict.set files d.path (if d.is_deleted then "" else apply_delta o.restore "" d)) ds

abbrev files_or_replay : Outside → List FileDelta → Option (Dict String) → Dict String
files_or_replay o deltas (some files) = mark_deleted files deltas
files_or_replay o deltas none = replay o [] deltas

-- The files that the last snapshot knew; a deleted file counts as an empty one.
unfoldable pub previous_map : Outside → Option Snapshot → Dict String
previous_map o none = []
previous_map o (some s) = files_or_replay o s.deltas s.files

-- The sorted set of the paths
abbrev insert_path : String → List String → List String
insert_path p [] = p ∷ []
insert_path p (q ∷ qs) =
    let rest = insert_path p qs in
    if p == q then q ∷ qs else if is_lt (compare p q) then p ∷ q ∷ qs else q ∷ rest

abbrev sorted_set : List String → List String
sorted_set [] = []
sorted_set (p ∷ ps) = insert_path p (sorted_set ps)

abbrev empty_delta : String → FileDelta
empty_delta path = record {
  path = path;
  old_hash = "";
  new_hash = "";
  diff = "";
  is_new = false;
  is_deleted = false;
}

abbrev get_or : Option String → String → String
get_or none d = d
get_or (some s) d = s

abbrev changed_delta : Outside → String → Option String → String → Option FileDelta
changed_delta o path none new =
    some (record (empty_delta path) { new_hash = o.hash new; is_new = true })
changed_delta o path (some old) new =
    if old == new
    then none
    else some (record (compute_delta o.unified old new path) {
      old_hash = o.hash old;
      new_hash = o.hash new;
    })

abbrev delta_of : Outside → String → Option String → Option String → Option FileDelta
delta_of o path old none = some (record (empty_delta path) {
  is_deleted = true;
  old_hash = if get_or old "" == "" then "" else o.hash (get_or old "");
})
delta_of o path old (some new) = changed_delta o path old new

unfoldable pub deltas_for : Outside → Dict String → Dict String → List String → List FileDelta
deltas_for o old new [] = []
deltas_for o old new (p ∷ ps) =
    let rest = deltas_for o old new ps in
    elim (delta_of o p (Dict.get old p) (Dict.get new p)) [ none ↦ rest | some d ↦ d ∷ rest ]

unfoldable pub create_snapshot :
    Outside → SnapshotManager → Tree → String → String → ℕ → SnapshotManager × Snapshot
create_snapshot o m tree label id now =
    let current = collect_files m.writer.project_root tree in
    let old = previous_map o (load_latest_snapshot m) in
    let s : Snapshot = record {
      snapshot_id = id;
      label = label;
      deltas = deltas_for o old current (sorted_set (Dict.keys current ++ Dict.keys old));
      created_at = now;
      files = some current;
    } in
    (save_snapshot m s, s)
