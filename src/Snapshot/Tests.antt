-- ===== src/Snapshot/Tests.antt =====
-- Tests of fusion_code_modelization/snapshot.
use fusion_code_modelization.Common.{
  String, ◌≡◌, refl, inl, inr, true, false, none, some, [], ◌∷◌, ◌||◌, Bool-cases, if◌then◌else◌,
  ◌==◌,
}
use fusion_code_modelization.Common.Dict
use fusion_code_modelization.Common.Dict.{Dict}
use fusion_code_modelization.Session.Store.{is_valid_id}
use fusion_code_modelization.Agent.Writer.{SafeWriter, resolve_within}
use fusion_code_modelization.Snapshot.Files.{
  text_file, Tree, newlines, dir_names, is_walked, readable, view, collect_files,
}
use fusion_code_modelization.Snapshot.Delta.{Snapshot}
use fusion_code_modelization.Snapshot.Manager.{
  SnapshotManager, Outside, save_snapshot, load_snapshot, delete_snapshot, create_snapshot,
}
use fusion_code_modelization.Snapshot.Restore.{
  is_symlink, safe_write, unlink_existing, delete_others, write_files, replace_files,
  restore_snapshot,
}
use fusion_code_modelization.Snapshot.Restore.Laws.{Reachable, keys-Reachable}
use fusion_code_modelization.Snapshot.Restore.Whole.{IsBack, restore-create}

abbrev outside : Outside
outside = record { hash = λ s. s; unified = λ a b p. "diff"; restore = λ d. [] }

abbrev writer : SafeWriter
writer = record { project_root = "/p"; registry = none; strict = true }

abbrev before : SnapshotManager
before = record { writer = writer; dir = record { json = []; gz = [] } }

-- Nothing but these paths is in the project.
abbrev resolve : String → String
resolve s = if (s == "/p/a.txt") || ((s == "/p/b.txt") || (s == "/p/build/x")) then s else "/out"

abbrev old : Tree
old = ("/p/a.txt", text_file "one\r\n") ∷ ("/p/build/x", text_file "x") ∷ []

abbrev new : Tree
new = ("/p/a.txt", text_file "two") ∷ ("/p/b.txt", text_file "b") ∷ []

test_collect : collect_files "/p" old ≡ ("a.txt", "one\n") ∷ []
unfolding collect_files view is_walked dir_names readable newlines Dict.get
test_collect = refl

abbrev later : SnapshotManager
later = (create_snapshot outside before old "first" "snap_1" 1).0

later_loads :
    load_snapshot later "snap_1" ≡ some (create_snapshot outside before old "first" "snap_1" 1).1
unfolding load_snapshot create_snapshot save_snapshot is_valid_id Dict.set Dict.get
later_loads = refl

later_writer : later.writer ≡ before.writer
unfolding create_snapshot save_snapshot
later_writer = refl

old-Reachable : Reachable resolve (λ p. false) later.writer old
unfolding create_snapshot save_snapshot resolve_within
old-Reachable = keys-Reachable resolve (λ p. false) writer old ((refl, refl), ((refl, refl), tt))

new-Reachable : Reachable resolve (λ p. false) later.writer new
unfolding create_snapshot save_snapshot resolve_within
new-Reachable = keys-Reachable resolve (λ p. false) writer new ((refl, refl), ((refl, refl), tt))

no_links : (p : String) → is_symlink (Dict.get new p) ≡ false
unfolding Dict.get
no_links p = elim (Bool-cases ("/p/a.txt" == p)) [
  | inl y ↦ rw y refl
  | inr n ↦ elim (Bool-cases ("/p/b.txt" == p)) [
    | inl y ↦ rw (n, y) refl
    | inr n2 ↦ rw (n, n2) refl
  ]
]

restore-create_example :
    IsBack resolve
      (λ p. false)
      outside
      before
      later
      old
      new
      "first"
      "snap_1"
      "rollback_1"
      false
      1
      2
      (restore_snapshot resolve (λ p. false) outside later new "snap_1" "rollback_1" false 2)
restore-create_example =
    restore-create resolve (λ p. false) outside before later old new "first" "snap_1" "rollback_1"
      false 1 2 later_loads later_writer old-Reachable new-Reachable (λ p t _. no_links p)

-- A snapshot of two files, of which the second leads out of the project.
abbrev escaping : Snapshot
escaping = record {
  snapshot_id = "snap_2";
  label = "";
  deltas = [];
  created_at = 1;
  files = some (("a.txt", "zero") ∷ ("../x", "x") ∷ []);
}

abbrev keeper : SnapshotManager
keeper = save_snapshot before escaping

test_fails_and_rolls_back :
    (restore_snapshot resolve (λ p. false) outside keeper new "snap_2" "rollback_1" false 2).1
    ≡ ("/p/a.txt", text_file "two") ∷ ("/p/b.txt", text_file "b") ∷ []
unfolding restore_snapshot load_snapshot save_snapshot is_valid_id Dict.get Dict.set Dict.remove
    replace_files delete_others write_files safe_write unlink_existing resolve_within collect_files
    view is_walked dir_names readable newlines delete_snapshot
test_fails_and_rolls_back = refl

-- Without a rollback snapshot the files stay as the failed restore has left them.
test_fails_unsaved :
    (restore_snapshot resolve (λ p. false) outside keeper new "snap_2" "rollback_1" true 2).1
    ≡ ("/p/a.txt", text_file "zero") ∷ []
unfolding restore_snapshot load_snapshot save_snapshot is_valid_id Dict.get Dict.set Dict.remove
    replace_files delete_others write_files safe_write unlink_existing resolve_within collect_files
    view is_walked dir_names readable newlines delete_snapshot
test_fails_unsaved = refl
