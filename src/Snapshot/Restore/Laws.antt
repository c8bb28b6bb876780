-- ===== src/Snapshot/Restore/Laws.antt =====
-- Restoring a snapshot, in fusion_code_modelization/snapshot/manager.py: a project goes back to what it
-- was when the snapshot was made.
use fusion_code_modelization.Common.{
  String, ◌≡◌, refl, sym, ap, ◌∙◌, subst, inl, inr, Bool, true, false, none, some, List, [], ◌∷◌,
  Bool-cases, Option-cases, All, if◌then◌else◌, ◌==◌, eq_iff, is_some, contains, ◌||◌,
}
use fusion_code_modelization.Common.Dict
use fusion_code_modelization.Common.Dict.{Dict, has-keys}
use fusion_code_modelization.Agent.Writer.{relative_to, ok, resolve_within, SafeWriter}
use fusion_code_modelization.Snapshot.Files.{Tree, view, collect_files}
use fusion_code_modelization.Snapshot.Files.Views.{
  Listed, Shows, collect_files-Listed, collect_files-Shows, view-IsReadable, view-walked,
  view-there,
}
use fusion_code_modelization.Snapshot.Manager.{SnapshotManager}
use fusion_code_modelization.Snapshot.Restore.{is_symlink, replace_files}
use fusion_code_modelization.Snapshot.Restore.Replace.{Target, Wanted, Pending}
use fusion_code_modelization.Snapshot.Restore.Deletes.{Sorted, Leftover, Begun, replace_files_lem}

All-map :
    {A : Type 0} {P Q : A → Type 0} (xs : List A) → ((x : A) → P x → Q x) → All P xs → All Q xs
All-map [] f h = h
All-map (x ∷ xs) f (h, hs) = (f x h, All-map xs f hs)

Listed-has : (files : Dict String) (rel t : String) → Listed rel t files → Dict.has files rel ≡ true
unfolding Dict.get
Listed-has [] rel t h = elim h [ ]
Listed-has ((r, c) ∷ files) rel t (inl (e, _)) = rw ((eq_iff r rel).1 e) refl
Listed-has ((r, c) ∷ files) rel t (inr later) = elim (Bool-cases (r == rel)) [
  | inl y ↦ rw y refl
  | inr n ↦ rw n (Listed-has files rel t later)
]

-- What the list has under a path is what is shown of a path.
has-Shows :
    (root : String) (tree : Tree) (files : Dict String) (rel : String)
    → All (Shows root tree) files
    → Dict.has files rel ≡ true
    → (t : String) × Shows root tree (rel, t)
unfolding Dict.get
has-Shows root tree [] rel shows h = cc
has-Shows root tree ((r, c) ∷ files) rel ((p, e, seen), shows) h = elim (Bool-cases (r == rel)) [
  | inl y ↦ (c, (p, e ∙ (eq_iff r rel).0 y, seen))
  | inr n ↦
      has-Shows root tree files rel shows
        (subst (λ b. is_some (if b then some c else Dict.get files rel) ≡ true) n h)
]

view-Target : (root : String) (tree : Tree) → Target root (view root tree)
view-Target root tree = record {
  walked = λ p t. view-walked root tree p t;
  fits = λ p t. view-IsReadable root tree p t;
}

-- The paths that are seen lead to themselves, and can be written and deleted.
pub record Reachable (resolve : String → String) (broken : String → Bool) (w : SafeWriter)
    (tree : Tree) : Type 0 where
  pub direct :
      (p t : String)
      → view w.project_root tree p ≡ some t
      → resolve_within resolve w (relative_to p w.project_root) ≡ ok p
  pub sound : (p t : String) → view w.project_root tree p ≡ some t → broken p ≡ false

All-contains :
    (P : String → Type 0) (ks : List String) (k : String) → All P ks → contains ks k ≡ true → P k
All-contains P [] k h there = cc
All-contains P (j ∷ ks) k (h, hs) there = elim (Bool-cases (j == k)) [
  | inl y ↦ subst P ((eq_iff j k).0 y) h
  | inr n ↦ All-contains P ks k hs (sym (ap (λ b. b || contains ks k) n) ∙ there)
]

-- It is enough to look at the paths of the tree.
module _ (resolve : String → String) (broken : String → Bool) (w : SafeWriter) (tree : Tree) where
  abbrev pub PathOk : String → Type 0
  PathOk p = (resolve_within resolve w (relative_to p w.project_root) ≡ ok p) × (broken p ≡ false)

  path_of :
      (p t : String) → All PathOk (Dict.keys tree) → view w.project_root tree p ≡ some t → PathOk p
  path_of p t h seen =
      All-contains PathOk (Dict.keys tree) p h
        (has-keys tree p ∙ view-there w.project_root tree p t seen)

  pub keys-Reachable : All PathOk (Dict.keys tree) → Reachable resolve broken w tree
  keys-Reachable h = record {
    direct = λ p t seen. (path_of p t h seen).0;
    sound = λ p t seen. (path_of p t h seen).1;
  }

module _ (resolve : String → String) (broken : String → Bool) (m : SnapshotManager) (old new : Tree)
    (old_ok : Reachable resolve broken m.writer old)
    (new_ok : Reachable resolve broken m.writer new) where
  abbrev root : String
  root = m.writer.project_root

  abbrev files : Dict String
  files = collect_files root old

  abbrev target : Target root (view root old)
  target = view-Target root old

  files-Wanted : All (Wanted resolve broken m (view root old) target) files
  files-Wanted =
      All-map files
        (λ e shown.
          let (p, at, seen) = shown in
          (
            p,
            subst (λ r. resolve_within resolve m.writer r ≡ ok p) at (old_ok.direct p e.1 seen),
            seen,
            old_ok.sound p e.1 seen,
          ))
        (collect_files-Shows root old)

  not_old : (p : String) → Dict.has files (relative_to p root) ≡ false → view root old p ≡ none
  not_old p out = elim (Option-cases (view root old p)) [
    | inl gone ↦ gone
    | inr (t, seen) ↦
        let there : Dict.has files (relative_to p root) ≡ true =
          Listed-has files _ t (collect_files-Listed root old p t seen) in
        cc
  ]

  new-Sorted : All (Sorted resolve broken m (view root old) target files) (collect_files root new)
  new-Sorted =
      All-map (collect_files root new)
        (λ e shown. elim (Bool-cases (Dict.has files e.0)) [
          | inl there ↦ inl there
          | inr out ↦
              let (p, at, seen) = shown in
              inr (
                p,
                subst (λ r. resolve_within resolve m.writer r ≡ ok p) at (new_ok.direct p e.1 seen),
                not_old p (subst (λ r. Dict.has files r ≡ false) (sym at) out),
                new_ok.sound p e.1 seen,
              )
        ])
        (collect_files-Shows root new)

  Listed-Pending :
      (fs : Dict String) (p rel t : String)
      → resolve_within resolve m.writer rel ≡ ok p
      → Listed rel t fs
      → Pending resolve broken m (view root old) target p fs
  Listed-Pending [] p rel t e h = h
  Listed-Pending ((r, c) ∷ fs) p rel t e (inl (same, _)) =
      inl (subst (λ x. resolve_within resolve m.writer x ≡ ok p) (sym same) e)
  Listed-Pending ((r, c) ∷ fs) p rel t e (inr later) = inr (Listed-Pending fs p rel t e later)

  Listed-Leftover :
      (fs : Dict String) (p rel t : String)
      → Dict.has files rel ≡ false
      → resolve_within resolve m.writer rel ≡ ok p
      → Listed rel t fs
      → Leftover resolve broken m (view root old) target files p fs
  Listed-Leftover [] p rel t out e h = h
  Listed-Leftover ((r, c) ∷ fs) p rel t out e (inl (same, _)) = inl (
    subst (λ x. Dict.has files x ≡ false) (sym same) out,
    subst (λ x. resolve_within resolve m.writer x ≡ ok p) (sym same) e,
  )
  Listed-Leftover ((r, c) ∷ fs) p rel t out e (inr later) =
      inr (Listed-Leftover fs p rel t out e later)

  out_of_files :
      (p t : String)
      → view root old p ≡ none
      → view root new p ≡ some t
      → Dict.has files (relative_to p root) ≡ false
  out_of_files p t gone seen = elim (Bool-cases (Dict.has files (relative_to p root))) [
    | inr n ↦ n
    | inl y ↦
        let (s, (q, at, seen_q)) = has-Shows root old files _ (collect_files-Shows root old) y in
        let to_q : resolve_within resolve m.writer (relative_to p root) ≡ ok q =
          subst (λ r. resolve_within resolve m.writer r ≡ ok q) at (old_ok.direct q s seen_q) in
        let to_p : resolve_within resolve m.writer (relative_to p root) ≡ ok p =
          new_ok.direct p t seen in
        let same : q ≡ p = cc in
        let bad : some s ≡ none = sym seen_q ∙ ap (view root old) same ∙ gone in cc
  ]

  new-Begun : Begun resolve broken m (view root old) target files new (collect_files root new)
  new-Begun p = elim (Option-cases (view root old p)) [
    | inr (t, seen) ↦ inr (
        inl (
          Listed-Pending files p _ t (old_ok.direct p t seen)
            (collect_files-Listed root old p t seen)))
    | inl gone ↦ elim (Option-cases (view root new p)) [
      | inl gone_too ↦ inl (gone_too ∙ sym gone)
      | inr (t, seen) ↦ inr (
          inr (
            Listed-Leftover (collect_files root new) p _ t (out_of_files p t gone seen)
              (new_ok.direct p t seen) (collect_files-Listed root new p t seen)))
    ]
  ]

  -- Replacing the files by those of an older state shows that state again.
  pub replace-collect :
      ((p t : String) → view root old p ≡ some t → is_symlink (Dict.get new p) ≡ false)
      → (tree : Tree) × (replace_files resolve broken m new files ≡ (tree, true))
        × ((p : String) → view root tree p ≡ view root old p)
  replace-collect links =
      replace_files_lem resolve broken m (view root old) target files new files-Wanted new-Sorted
        links new-Begun
