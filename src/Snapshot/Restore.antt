-- ===== src/Snapshot/Restore.antt =====
-- Going back to a snapshot, in fusion_code_modelization/snapshot/manager.py. `broken` says at which
-- paths a deletion, or a write with the making of the directories above it, raises: an error of the
-- disk, a file where a directory is to be, or a directory where a file is to be. It is the same
-- throughout a run. Directories themselves are not modelled, neither those that a write makes nor
-- those that are empty after a deletion, so a run in which they change where a write fails is left out.
-- `unsaved` says whether saving the rollback snapshot raises.
pub mod Replace
pub mod Deletes
pub mod Laws
pub mod Whole
use Prim.Native.String.{◌++◌ as ◌+++◌}
use fusion_code_modelization.Common.{
  ℕ, zero, suc, ◌+◌, String, Bool, true, false, Option, none, some, List, [], ◌∷◌, length, ltb, not,
  ◌==◌, is_some, if◌then◌else◌,
}
use fusion_code_modelization.Common.Dict
use fusion_code_modelization.Common.Dict.{Dict}
use fusion_code_modelization.Agent.Writer.{Result, ok, unsafe, resolve_within}
use fusion_code_modelization.Snapshot.Files.{
  FileEntry, text_file, binary_file, symlink, Tree, newlines, collect_files,
}
use fusion_code_modelization.Snapshot.Delta.{FileDelta, Snapshot, apply_delta}
use fusion_code_modelization.Snapshot.Manager.{
  SnapshotManager, Outside, save_snapshot, load_snapshot, delete_snapshot, list_snapshots, nth_last,
}

-- The files after a step, and whether it returned; an exception ends what follows.
abbrev pub and_then : Tree × Bool → (Tree → Tree × Bool) → Tree × Bool
and_then (tree, false) next = (tree, false)
and_then (tree, true) next = next tree

abbrev pub is_symlink : Option FileEntry → Bool
is_symlink (some symlink) = true
is_symlink _ = false

-- `_read_file`
abbrev read_file : Option FileEntry → Option String
read_file (some (text_file s)) = some (newlines false s)
read_file _ = none

module _ (resolve : String → String) (broken : String → Bool) (m : SnapshotManager) where
  -- `_safe_write`, which refuses a symbolic link without an exception
  unfoldable pub safe_write : Tree → String → String → Tree × Bool
  safe_write tree target content =
      if is_symlink (Dict.get tree target)
      then (tree, true)
      else if broken target
      then (tree, false)
      else (Dict.set tree target (text_file content), true)

  -- `if target.exists(): target.unlink()`
  unfoldable pub unlink_existing : Tree → String → Tree × Bool
  unlink_existing tree target =
      if Dict.has tree target
      then (if broken target then (tree, false) else (Dict.remove tree target, true))
      else (tree, true)

  abbrev pub at_target : Tree → Result String → (String → Tree × Bool) → Tree × Bool
  at_target tree (unsafe e) f = (tree, false)
  at_target tree (ok target) f = f target

  abbrev pub delete_unless : Bool → Tree → String → Tree × Bool
  delete_unless true tree rel = (tree, true)
  delete_unless false tree rel =
      at_target tree (resolve_within resolve m.writer rel) (unlink_existing tree)

  -- The current files that are not among `files` are deleted.
  unfoldable pub delete_others : Dict String → Tree → Dict String → Tree × Bool
  delete_others files tree [] = (tree, true)
  delete_others files tree ((rel, _) ∷ current) =
      and_then (delete_unless (Dict.has files rel) tree rel) (λ t. delete_others files t current)

  unfoldable pub write_files : Tree → Dict String → Tree × Bool
  write_files tree [] = (tree, true)
  write_files tree ((rel, content) ∷ files) =
      and_then
        (at_target tree (resolve_within resolve m.writer rel)
          (λ target. safe_write tree target content))
        (λ t. write_files t files)

  -- The project is made to hold these files.
  unfoldable pub replace_files : Tree → Dict String → Tree × Bool
  replace_files tree files =
      and_then (delete_others files tree (collect_files m.writer.project_root tree))
        (λ t. write_files t files)

  abbrev get_text : Option String → String
  get_text none = ""
  get_text (some s) = s

  -- The text of a new file comes from `_reconstruct_from_diff`, of a changed one from its diff.
  abbrev pub apply_at : Outside → Tree → FileDelta → String → Tree × Bool
  apply_at o tree d target =
      if d.is_deleted
      then unlink_existing tree target
      else if d.is_new
      then safe_write tree target (if d.diff == "" then "" else apply_delta o.restore "" d)
      else if d.diff == ""
      then (tree, true)
      else safe_write tree target
          (apply_delta o.restore (get_text (read_file (Dict.get tree target))) d)

  -- A path that escapes is skipped.
  abbrev pub apply_resolved : Outside → Tree → FileDelta → Result String → Tree × Bool
  apply_resolved o tree d (unsafe e) = (tree, true)
  apply_resolved o tree d (ok target) = apply_at o tree d target

  unfoldable pub apply_deltas : Outside → Tree → List FileDelta → Tree × Bool
  apply_deltas o tree [] = (tree, true)
  apply_deltas o tree (d ∷ ds) =
      and_then (apply_resolved o tree d (resolve_within resolve m.writer d.path))
        (λ t. apply_deltas o t ds)

  abbrev pub apply_snapshot : Outside → Tree → List FileDelta → Option (Dict String) → Tree × Bool
  apply_snapshot o tree deltas (some files) = replace_files tree files
  apply_snapshot o tree deltas none = apply_deltas o tree deltas

  -- `_rollback_from` gives up where the files are missing, and where there are none.
  abbrev pub rollback_files : Option (Dict String) → Tree → Tree
  rollback_files none tree = tree
  rollback_files (some []) tree = tree
  rollback_files (some (f ∷ fs)) tree = (replace_files tree (f ∷ fs)).0

  abbrev pub rollback_to : Option Snapshot → Tree → Tree
  rollback_to none tree = tree
  rollback_to (some s) tree = rollback_files s.files tree

abbrev pub rollback_of : SnapshotManager → Tree → String → String → ℕ → Snapshot
rollback_of m tree id rollback_id now = record {
  snapshot_id = rollback_id;
  label = "rollback-before-" +++ id;
  deltas = [];
  created_at = now;
  files = some (collect_files m.writer.project_root tree);
}

module _ (resolve : String → String) (broken : String → Bool) where
  -- After an exception the rollback snapshot stays.
  abbrev pub finish : SnapshotManager → String → Tree × Bool → SnapshotManager × Tree × Bool
  finish m rollback_id (tree, true) = ((delete_snapshot m rollback_id).0, tree, true)
  finish m rollback_id (tree, false) =
      (m, rollback_to resolve broken m (load_snapshot m rollback_id) tree, false)

  -- The rollback snapshot is saved, or that raises and the restore goes on without it.
  abbrev pub try_save : Bool → SnapshotManager → Snapshot → SnapshotManager
  try_save unsaved m rollback = record m {
    dir = if unsaved then m.dir else (save_snapshot m rollback).dir;
  }

  abbrev pub restore_found :
      Outside
      → SnapshotManager
      → Tree
      → String
      → String
      → Bool
      → ℕ
      → Option Snapshot
      → SnapshotManager × Tree × Bool
  restore_found o m tree id rollback_id unsaved now none = (m, tree, false)
  restore_found o m tree id rollback_id unsaved now (some s) =
      let m' = try_save unsaved m (rollback_of m tree id rollback_id now) in
      finish m' rollback_id (apply_snapshot resolve broken m' o tree s.deltas s.files)

  unfoldable pub restore_snapshot :
      Outside → SnapshotManager → Tree → String → String → Bool → ℕ → SnapshotManager × Tree × Bool
  restore_snapshot o m tree id rollback_id unsaved now =
      restore_found o m tree id rollback_id unsaved now (load_snapshot m id)

  abbrev rewind_to :
      Outside
      → SnapshotManager
      → Tree
      → String
      → Bool
      → ℕ
      → Option Snapshot
      → SnapshotManager × Tree × Option Snapshot
  rewind_to o m tree rollback_id unsaved now none = (m, tree, none)
  rewind_to o m tree rollback_id unsaved now (some s) =
      let (m', tree', _) = restore_snapshot o m tree s.snapshot_id rollback_id unsaved now in
      (m', tree', load_snapshot m' s.snapshot_id)

  -- Whether the restore has worked is not looked at.
  unfoldable pub rewind :
      Outside
      → SnapshotManager
      → Tree
      → ℕ
      → String
      → Bool
      → ℕ
      → SnapshotManager × Tree × Option Snapshot
  rewind o m tree steps rollback_id unsaved now =
      let ss = list_snapshots m in
      rewind_to o m tree rollback_id unsaved now
        (if ltb (length ss) (steps + 1) then none else nth_last (steps + 1) ss)
