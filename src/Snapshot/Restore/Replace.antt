-- ===== src/Snapshot/Restore/Replace.antt =====
-- Making a project hold given files: deleting the others and writing these.
use fusion_code_modelization.Common.{
  String, ◌≡◌, refl, ap, ◌∙◌, subst, ◌⊎◌, inl, inr, Bool, true, false, Option, none, some, [], ◌∷◌,
  Bool-cases, All, if◌then◌else◌, ◌==◌, eq_iff,
}
use fusion_code_modelization.Common.Dict
use fusion_code_modelization.Common.Dict.{Dict, get-set, get-remove}
use fusion_code_modelization.Agent.Writer.{ok, resolve_within}
use fusion_code_modelization.Snapshot.Files.{FileEntry, text_file, Tree, is_walked, readable, view}
use fusion_code_modelization.Snapshot.Files.Views.{IsReadable}
use fusion_code_modelization.Snapshot.Manager.{SnapshotManager}
use fusion_code_modelization.Snapshot.Restore.{
  and_then, is_symlink, safe_write, at_target, write_files,
}

if_same : (b : Bool) → (let o : Option String = none in (if b then o else o) ≡ o)
if_same true = refl
if_same false = refl

module _ (root : String) (tree : Tree) (p q : String) where
  pub view-set :
      (e : FileEntry)
      → view root (Dict.set tree p e) q ≡ (
          if p == q
          then (if is_walked root q then readable (some e) else none)
          else view root tree q)
  unfolding view
  view-set e = elim (Bool-cases (p == q)) [
    | inl y ↦ rw (get-set tree p q e, y) refl
    | inr n ↦ rw (get-set tree p q e, n) refl
  ]

  pub view-remove : view root (Dict.remove tree p) q ≡ (if p == q then none else view root tree q)
  unfolding view readable
  view-remove = elim (Bool-cases (p == q)) [
    | inl y ↦ rw (get-remove tree p q, y) (if_same (is_walked root q))
    | inr n ↦ rw (get-remove tree p q, n) refl
  ]

-- `goal` is what is to be seen of each path. What is to be seen can be written: its path is walked, and
-- its text is read as it is written.
pub record Target (root : String) (goal : String → Option String) : Type 0 where
  pub walked : (p t : String) → goal p ≡ some t → is_walked root p ≡ true
  pub fits : (p t : String) → goal p ≡ some t → IsReadable t

module _ (resolve : String → String) (broken : String → Bool) (m : SnapshotManager)
    (goal : String → Option String) (target : Target m.writer.project_root goal) where
  abbrev pub root : String
  root = m.writer.project_root

  -- The list names a path that is to be seen with the content, and that can be written.
  abbrev pub Wanted : String × String → Type 0
  Wanted e =
      (p : String) × (resolve_within resolve m.writer e.0 ≡ ok p)
      × (goal p ≡ some e.1)
      × (broken p ≡ false)

  -- No path that is to be seen is a symbolic link.
  abbrev pub NoLinks : Tree → Type 0
  NoLinks tree = (p t : String) → goal p ≡ some t → is_symlink (Dict.get tree p) ≡ false

  -- The path is among those of the list.
  abbrev pub Pending : String → Dict String → Type 0
  Pending p [] = ⊥
  Pending p ((rel, c) ∷ files) = (resolve_within resolve m.writer rel ≡ ok p) ⊎ Pending p files

  abbrev pub Settled : Tree → Dict String → Type 0
  Settled tree files = (p : String) → (view root tree p ≡ goal p) ⊎ Pending p files

  write_one :
      (tree : Tree) (rel content p : String)
      → NoLinks tree
      → resolve_within resolve m.writer rel ≡ ok p
      → goal p ≡ some content
      → broken p ≡ false
      → at_target resolve broken m tree
          (resolve_within resolve m.writer rel)
          (λ target. safe_write resolve broken m tree target content)
        ≡ (Dict.set tree p (text_file content), true)
  unfolding safe_write
  write_one tree rel content p links e g b = rw (e, at_target, links p content g, b) refl

  pub NoLinks-set :
      (tree : Tree) (p content : String)
      → NoLinks tree
      → NoLinks (Dict.set tree p (text_file content))
  NoLinks-set tree p content links q t g = elim (Bool-cases (p == q)) [
    | inl y ↦ rw (get-set tree p q (text_file content), y) refl
    | inr n ↦ rw (get-set tree p q (text_file content), n) (links q t g)
  ]

  Settled-write :
      (tree : Tree) (rel content p : String) (files : Dict String)
      → resolve_within resolve m.writer rel ≡ ok p
      → goal p ≡ some content
      → Settled tree ((rel, content) ∷ files)
      → Settled (Dict.set tree p (text_file content)) files
  Settled-write tree rel content p files e g settled q = elim (Bool-cases (p == q)) [
    | inl y ↦
        let same : p ≡ q = (eq_iff p q).0 y in
        let g' : goal q ≡ some content = subst (λ x. goal x ≡ some content) same g in
        inl (
          view-set root tree p q (text_file content)
          ∙ rw (y, target.walked q content g', target.fits q content g', g') refl)
    | inr n ↦
        let kept : view root (Dict.set tree p (text_file content)) q ≡ view root tree q =
          view-set root tree p q (text_file content) ∙ rw n refl in
        elim (settled q) [
          | inl seen ↦ inl (kept ∙ seen)
          | inr (inl e') ↦
              let same : p ≡ q = cc in let bad : (p == q) ≡ true = (eq_iff p q).1 same in cc
          | inr (inr later) ↦ inr later
        ]
  ]

  Settled-end : (tree : Tree) → Settled tree [] → (p : String) → view root tree p ≡ goal p
  Settled-end tree settled p = elim (settled p) [ inl seen ↦ seen | inr never ↦ elim never [ ] ]

  -- The writes all succeed, and then everything is seen as it is to be.
  pub write_files-Settled :
      (files : Dict String) (tree : Tree)
      → All Wanted files
      → NoLinks tree
      → Settled tree files
      → (tree' : Tree) × (write_files resolve broken m tree files ≡ (tree', true))
        × ((p : String) → view root tree' p ≡ goal p)
  unfolding write_files
  write_files-Settled [] tree wanted links settled = (tree, refl, Settled-end tree settled)
  write_files-Settled ((rel, content) ∷ files) tree ((p, e, g, b), wanted) links settled =
      let (tree', done, seen) =
        write_files-Settled files (Dict.set tree p (text_file content)) wanted
          (NoLinks-set tree p content links) (Settled-write tree rel content p files e g settled) in
      (
        tree',
        ap (λ x. and_then x (λ t. write_files resolve broken m t files))
              (write_one tree rel content p links e g b)
            ∙ done,
        seen,
      )
