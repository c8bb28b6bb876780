-- ===== src/Snapshot/Cleanup.antt =====
-- What fusion_code_modelization/snapshot/manager.py does to old snapshots, and its check of one.
use Prim.Native.String.{◌++◌ as ◌+++◌}
use fusion_code_modelization.Common.{
  ℕ, zero, suc, ◌+◌, ◌-◌, ◌*◌, String, Bool, true, false, Option, none, some, List, [], ◌∷◌, filter,
  length, ltb, leb, ◌==◌, ◌||◌, is_some, if◌then◌else◌,
}
use fusion_code_modelization.Common.Dict
use fusion_code_modelization.Common.Dict.{Dict}
use fusion_code_modelization.Session.Store.{is_valid_id}
use fusion_code_modelization.Snapshot.Files.{FileEntry, text_file, Tree}
use fusion_code_modelization.Snapshot.Delta.{FileDelta, Snapshot}
use fusion_code_modelization.Snapshot.Manager.{
  SnapshotManager, load_snapshot, delete_snapshot, list_snapshots, sort_snapshots,
}

abbrev delete_each : SnapshotManager → List Snapshot → SnapshotManager
delete_each m [] = m
delete_each m (s ∷ ss) = delete_each (delete_snapshot m s.snapshot_id).0 ss

-- `xs[:n]`
abbrev first_of : ℕ → List Snapshot → List Snapshot
first_of zero ss = []
first_of (suc n) [] = []
first_of (suc n) (s ∷ ss) = s ∷ first_of n ss

-- `remaining[:excess]` of the snapshots that are left, where there are too many of them
abbrev surplus : ℕ → List Snapshot → List Snapshot
surplus max_snapshots remaining =
    if ltb max_snapshots (length remaining)
    then first_of (length remaining - max_snapshots) (sort_snapshots remaining)
    else []

-- `auto_cleanup` at the time `now`, in seconds; before the epoch no snapshot is too old.
unfoldable pub auto_cleanup : SnapshotManager → ℕ → ℕ → ℕ → SnapshotManager × ℕ
auto_cleanup m max_age_days max_snapshots now =
    let ss = list_snapshots m in
    let cutoff = now - max_age_days * 86400 in
    let aged = filter (λ s. ltb s.created_at cutoff) ss in
    let more = surplus max_snapshots (filter (λ s. leb cutoff s.created_at) ss) in
    (delete_each (delete_each m aged) more, length aged + length more)

abbrev compress_found : SnapshotManager → String → Option Snapshot → SnapshotManager × Bool
compress_found m id none = (m, false)
compress_found m id (some s) = (
  record m { dir = record m.dir { json = Dict.remove m.dir.json id; gz = Dict.set m.dir.gz id s } },
  true,
)

unfoldable pub compress_snapshot : SnapshotManager → String → SnapshotManager × Bool
compress_snapshot m id =
    if is_valid_id id then compress_found m id (Dict.get m.dir.json id) else (m, false)

abbrev is_text : Option FileEntry → Bool
is_text (some (text_file s)) = true
is_text _ = false

abbrev issue_of : Tree → String → FileDelta → Option String
issue_of tree root d =
    let there = Dict.get tree (root +++ "/" +++ d.path) in
    if d.is_deleted
    then none
    else if d.is_new
    then (if is_some there then none else some ("new file missing: " +++ d.path))
    else if (d.diff == "") || is_text there
    then none
    else some ("modified file missing: " +++ d.path)

abbrev issues_of : Tree → String → List FileDelta → List String
issues_of tree root [] = []
issues_of tree root (d ∷ ds) =
    let rest = issues_of tree root ds in
    elim (issue_of tree root d) [ none ↦ rest | some i ↦ i ∷ rest ]

-- `verify_snapshot`: the issues, where the snapshot is there.
unfoldable pub verify_snapshot : SnapshotManager → Tree → String → Option (List String)
verify_snapshot m tree id = elim (load_snapshot m id) [
  | none ↦ none
  | some s ↦ some (issues_of tree m.writer.project_root s.deltas)
]
