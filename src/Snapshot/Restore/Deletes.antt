-- ===== src/Snapshot/Restore/Deletes.antt =====
-- Deleting the files that are not wanted, in front of writing those that are.
use fusion_code_modelization.Common.{
  String, ◌≡◌, refl, sym, ap, ◌∙◌, subst, ◌⊎◌, inl, inr, Bool, true, false, Option, none, [], ◌∷◌,
  Bool-cases, Option-cases, All, if◌then◌else◌, ◌==◌, eq_iff,
}
use fusion_code_modelization.Common.Dict
use fusion_code_modelization.Common.Dict.{Dict, get-set, get-remove}
use fusion_code_modelization.Agent.Writer.{ok, resolve_within}
use fusion_code_modelization.Snapshot.Files.{Tree, is_walked, readable, view, collect_files}
use fusion_code_modelization.Snapshot.Manager.{SnapshotManager}
use fusion_code_modelization.Snapshot.Restore.{
  and_then, unlink_existing, at_target, delete_unless, delete_others, write_files, replace_files,
}
use fusion_code_modelization.Snapshot.Restore.Replace.{
  view-remove, Target, Wanted, NoLinks, Pending, write_files-Settled,
}

missing_view :
    (root : String) (tree : Tree) (p : String) → Dict.get tree p ≡ none → view root tree p ≡ none
unfolding view readable
missing_view root tree p gone = elim (Bool-cases (is_walked root p)) [
  | inl y ↦ rw (y, gone) refl
  | inr n ↦ rw n refl
]

module _ (resolve : String → String) (broken : String → Bool) (m : SnapshotManager)
    (goal : String → Option String) (target : Target m.writer.project_root goal) where
  abbrev root : String
  root = m.writer.project_root

  -- What a deletion leaves: the path is not seen any more, and the others are as they were.
  abbrev Deleted : Tree → String → Tree → Type 0
  Deleted tree p tree' =
      (NoLinks resolve broken m goal target tree → NoLinks resolve broken m goal target tree')
      × ((q : String) → view root tree' q ≡ (if p == q then none else view root tree q))

  unlink-Deleted :
      (tree : Tree) (p : String)
      → broken p ≡ false
      → (tree' : Tree) × (unlink_existing resolve broken m tree p ≡ (tree', true))
        × Deleted tree p tree'
  unfolding unlink_existing
  unlink-Deleted tree p b = elim (Option-cases (Dict.get tree p)) [
    | inl gone ↦ (
      tree,
      rw gone refl,
      (
        (λ links. links),
        λ q. elim (Bool-cases (p == q)) [
          | inl y ↦
              let same : p ≡ q = (eq_iff p q).0 y in
              rw y (missing_view root tree q (subst (λ x. Dict.get tree x ≡ none) same gone))
          | inr n ↦ rw n refl
        ],
      ),
    )
    | inr (e, there) ↦ (
      Dict.remove tree p,
      rw (there, b) refl,
      (
        (λ links q t g. elim (Bool-cases (p == q)) [
          | inl y ↦ rw (get-remove tree p q, y) refl
          | inr n ↦ rw (get-remove tree p q, n) (links q t g)
        ]),
        view-remove root tree p,
      ),
    )
  ]

  -- The listed file is wanted, or it can be deleted and is not to be seen.
  abbrev pub Sorted : Dict String → String × String → Type 0
  Sorted files e =
      (Dict.has files e.0 ≡ true)
      ⊎ ((p : String) × (resolve_within resolve m.writer e.0 ≡ ok p)
          × (goal p ≡ none)
          × (broken p ≡ false))

  -- The path is among those that are still to be deleted.
  abbrev pub Leftover : Dict String → String → Dict String → Type 0
  Leftover files p [] = ⊥
  Leftover files p ((rel, c) ∷ current) =
      ((Dict.has files rel ≡ false) × (resolve_within resolve m.writer rel ≡ ok p))
      ⊎ Leftover files p current

  abbrev pub Begun : Dict String → Tree → Dict String → Type 0
  Begun files tree current =
      (p : String)
      → (view root tree p ≡ goal p)
        ⊎ (Pending resolve broken m goal target p files ⊎ Leftover files p current)

  Begun-delete :
      (files : Dict String) (tree tree' : Tree) (rel c p : String) (current : Dict String)
      → resolve_within resolve m.writer rel ≡ ok p
      → goal p ≡ none
      → Deleted tree p tree'
      → Begun files tree ((rel, c) ∷ current)
      → Begun files tree' current
  Begun-delete files tree tree' rel c p current e g deleted begun q = elim (Bool-cases (p == q)) [
    | inl y ↦
        let same : p ≡ q = (eq_iff p q).0 y in
        inl (deleted.1 q ∙ rw y (sym (subst (λ x. goal x ≡ none) same g)))
    | inr n ↦
        let kept : view root tree' q ≡ view root tree q = deleted.1 q ∙ rw n refl in
        elim (begun q) [
          | inl seen ↦ inl (kept ∙ seen)
          | inr (inl later) ↦ inr (inl later)
          | inr (inr (inl (out, e'))) ↦
              let same : p ≡ q = cc in let bad : (p == q) ≡ true = (eq_iff p q).1 same in cc
          | inr (inr (inr later)) ↦ inr (inr later)
        ]
  ]

  Begun-skip :
      (files : Dict String) (tree : Tree) (rel c : String) (current : Dict String)
      → Dict.has files rel ≡ true
      → Begun files tree ((rel, c) ∷ current)
      → Begun files tree current
  Begun-skip files tree rel c current there begun q = elim (begun q) [
    | inl seen ↦ inl seen
    | inr (inl later) ↦ inr (inl later)
    | inr (inr (inl (out, e'))) ↦ cc
    | inr (inr (inr later)) ↦ inr (inr later)
  ]

  Begun-end :
      (files : Dict String) (tree : Tree)
      → Begun files tree []
      → (p : String) → (view root tree p ≡ goal p) ⊎ Pending resolve broken m goal target p files
  Begun-end files tree begun p = elim (begun p) [
    | inl seen ↦ inl seen
    | inr (inl later) ↦ inr later
    | inr (inr never) ↦ elim never [ ]
  ]

  abbrev Deleting : Dict String → Tree → Dict String → Type 0
  Deleting files tree current =
      (tree' : Tree) × (delete_others resolve broken m files tree current ≡ (tree', true))
      × (NoLinks resolve broken m goal target tree → NoLinks resolve broken m goal target tree')
      × Begun files tree' []

  delete_head :
      (files : Dict String) (tree tree1 : Tree) (rel c : String) (current : Dict String)
      → delete_unless resolve broken m (Dict.has files rel) tree rel ≡ (tree1, true)
      → (NoLinks resolve broken m goal target tree → NoLinks resolve broken m goal target tree1)
      → Deleting files tree1 current
      → Deleting files tree ((rel, c) ∷ current)
  unfolding delete_others
  delete_head files tree tree1 rel c current e keeps (tree', done, keeps', begun) = (
    tree',
    ap (λ x. and_then x (λ t. delete_others resolve broken m files t current)) e ∙ done,
    (λ links. keeps' (keeps links)),
    begun,
  )

  -- The deletions all succeed, and leave only what is wanted to be written.
  pub delete_others-Begun :
      (files : Dict String) (tree : Tree) (current : Dict String)
      → All (Sorted files) current
      → Begun files tree current
      → Deleting files tree current
  unfolding delete_others
  delete_others-Begun files tree [] sorted begun = (tree, refl, (λ links. links), begun)
  delete_others-Begun files tree ((rel, c) ∷ current) (inl there, sorted) begun =
      delete_head files tree tree rel c current (rw there refl) (λ links. links)
        (delete_others-Begun files tree current sorted
          (Begun-skip files tree rel c current there begun))
  delete_others-Begun files tree ((rel, c) ∷ current) (inr (p, e, g, b), sorted) begun =
      elim (Bool-cases (Dict.has files rel)) [
        | inl there ↦
            delete_head files tree tree rel c current (rw there refl) (λ links. links)
              (delete_others-Begun files tree current sorted
                (Begun-skip files tree rel c current there begun))
        | inr out ↦
            let (tree1, done, deleted) = unlink-Deleted tree p b in
            delete_head files tree tree1 rel c current (rw (out, e, at_target) done) deleted.0 (
              delete_others-Begun files tree1 current sorted
                (Begun-delete files tree tree1 rel c p current e g deleted begun))
      ]

  -- Nothing fails, and everything is seen as it is to be.
  pub replace_files_lem :
      (files : Dict String) (tree : Tree)
      → All (Wanted resolve broken m goal target) files
      → All (Sorted files) (collect_files m.writer.project_root tree)
      → NoLinks resolve broken m goal target tree
      → Begun files tree (collect_files m.writer.project_root tree)
      → (tree' : Tree) × (replace_files resolve broken m tree files ≡ (tree', true))
        × ((p : String) → view root tree' p ≡ goal p)
  unfolding replace_files
  replace_files_lem files tree wanted sorted links begun =
      let (tree1, done1, keeps, begun1) =
        delete_others-Begun files tree (collect_files m.writer.project_root tree) sorted begun in
      let (tree2, done2, seen) =
        write_files-Settled resolve broken m goal target files tree1 wanted (keeps links)
          (Begun-end files tree1 begun1) in
      (tree2, ap (λ x. and_then x (λ t. write_files resolve broken m t files)) done1 ∙ done2, seen)
