-- ===== src/Snapshot/Restore/Whole.antt =====
-- From create_snapshot to restore_snapshot, in fusion_code_modelization/snapshot/manager.py.
use fusion_code_modelization.Common.{
  ℕ, String, ◌≡◌, refl, sym, ap, ◌∙◌, subst, inl, inr, Bool, true, false, Option, none, some, ◌&&◌,
  Bool-cases, Option-cases, same_text, eq_iff, if◌then◌else◌, ◌==◌,
}
use fusion_code_modelization.Common.Dict
use fusion_code_modelization.Common.Dict.{Dict, get-set, get-remove}
use fusion_code_modelization.Session.Store.{is_valid_id}
use fusion_code_modelization.Snapshot.Files.{Tree, view, collect_files}
use fusion_code_modelization.Snapshot.Delta.{Snapshot}
use fusion_code_modelization.Snapshot.Manager.{
  SnapshotManager, Outside, save_snapshot, load_snapshot, delete_snapshot, create_snapshot,
}
use fusion_code_modelization.Snapshot.Restore.{
  is_symlink, replace_files, apply_snapshot, restore_found, restore_snapshot, rollback_of, try_save,
}
use fusion_code_modelization.Snapshot.Restore.Laws.{Reachable, replace-collect}

-- Deleting or saving one snapshot leaves the others.
load-save-other :
    (m : SnapshotManager) (s : Snapshot) (j : String)
    → (s.snapshot_id == j) ≡ false
    → load_snapshot (save_snapshot m s) j ≡ load_snapshot m j
unfolding load_snapshot save_snapshot
load-save-other m s j other =
    ap (λ o. if is_valid_id j then o else none)
      (get-set m.dir.json s.snapshot_id j s ∙ rw other refl)

load-delete-other :
    (m : SnapshotManager) (id j : String)
    → (id == j) ≡ false
    → load_snapshot (delete_snapshot m id).0 j ≡ load_snapshot m j
unfolding load_snapshot delete_snapshot
load-delete-other m id j other = elim (Bool-cases (is_valid_id id && Dict.has m.dir.json id)) [
  | inl y ↦
      rw y
        (ap (λ o. if is_valid_id j then o else none) (get-remove m.dir.json id j ∙ rw other refl))
  | inr n ↦ rw n refl
]

load-delete :
    (m : SnapshotManager) (id j : String) → id ≡ j → load_snapshot (delete_snapshot m id).0 j ≡ none
unfolding load_snapshot delete_snapshot
load-delete m id j same =
    subst (λ k. load_snapshot (delete_snapshot m id).0 k ≡ none) same
      (elim (Bool-cases (is_valid_id id)) [
        | inr bad ↦ rw bad refl
        | inl valid ↦ elim (Option-cases (Dict.get m.dir.json id)) [
          | inl gone ↦ rw (valid, gone) gone
          | inr (s, there) ↦
              rw (valid, there) (get-remove m.dir.json id id ∙ rw (same_text id) refl)
        ]
      ])

-- A restore that has worked leaves the other snapshots as they are.
module _ (resolve : String → String) (broken : String → Bool) (o : Outside)
    (m later : SnapshotManager) (old new : Tree) (label id rollback_id : String) (unsaved : Bool)
    (created now : ℕ) where
  restored :
      (x : Option Snapshot) (s : Snapshot) (tree' : Tree)
      → x ≡ some s
      → apply_snapshot resolve broken
          (try_save resolve broken unsaved later (rollback_of later new id rollback_id now))
          o
          new
          s.deltas
          s.files
        ≡ (tree', true)
      → restore_found resolve broken o later new id rollback_id unsaved now x ≡ (
        (delete_snapshot
            (try_save resolve broken unsaved later (rollback_of later new id rollback_id now))
            rollback_id).0,
        tree',
        true,
      )
  restored x s tree' e applied = rw (e, restore_found, applied) refl

  load-try_save-other :
      (s : Snapshot) (j : String) (b : Bool)
      → (s.snapshot_id == j) ≡ false
      → load_snapshot (try_save resolve broken b later s) j ≡ load_snapshot later j
  unfolding load_snapshot
  load-try_save-other s j true other = refl
  load-try_save-other s j false other =
      unfold load_snapshot save_snapshot in load-save-other later s j other

  -- It has worked, the old state is shown, and the other snapshots are there.
  abbrev pub IsBack : SnapshotManager × Tree × Bool → Type 0
  IsBack r =
      (r.2 ≡ true)
      × ((p : String) → view later.writer.project_root r.1 p ≡ view later.writer.project_root old p)
      × ((j : String)
          → load_snapshot r.0 j ≡ (if rollback_id == j then none else load_snapshot later j))

  -- Let a snapshot have been made when the project was `old`, and be there still when it is `new`. Let
  -- the texts of both lead to themselves by their relative paths, be free of symbolic links in the
  -- way, and let none of them be where a write or a deletion fails. Then restoring the snapshot
  -- succeeds, whether or not the rollback snapshot can be saved: every path shows what it showed when
  -- the snapshot was made, also one that was added, changed or deleted since, and the snapshots but the
  -- rollback one are there as before.
  pub restore-create :
      load_snapshot later id ≡ some (create_snapshot o m old label id created).1
      → later.writer ≡ m.writer
      → Reachable resolve broken later.writer old
      → Reachable resolve broken later.writer new
      → ((p t : String)
          → view later.writer.project_root old p ≡ some t
          → is_symlink (Dict.get new p) ≡ false)
      → IsBack (restore_snapshot resolve broken o later new id rollback_id unsaved now)
  unfolding restore_snapshot create_snapshot save_snapshot
  restore-create there same old_ok new_ok links =
      let m' = try_save resolve broken unsaved later (rollback_of later new id rollback_id now) in
      let s = (create_snapshot o m old label id created).1 in
      let (tree', replaced, seen) = replace-collect resolve broken m' old new old_ok new_ok links in
      let applied : replace_files resolve broken m' new (collect_files m.writer.project_root old)
          ≡ (tree', true) =
        subst
          (λ w.
            replace_files resolve broken m' new (collect_files w.project_root old) ≡ (tree', true))
          same replaced in
      subst IsBack (sym (restored (load_snapshot later id) s tree' there applied)) (
        refl,
        seen,
        λ j. elim (Bool-cases (rollback_id == j)) [
          | inl y ↦ rw y (load-delete m' rollback_id j ((eq_iff rollback_id j).0 y))
          | inr n ↦ rw n (
              load-delete-other m' rollback_id j n
              ∙ load-try_save-other (rollback_of later new id rollback_id now) j unsaved n)
        ],
      )
