-- ===== src/Snapshot/Files/Views.antt =====
-- What `_collect_files` lists: the readable texts of the project, and only those.
use Prim.Native.String.{len}
use fusion_code_modelization.Common.{
  String, ◌≡◌, refl, sym, ap, ◌∙◌, subst, ◌⊎◌, inl, inr, true, false, Option, none, some, List, [],
  ◌∷◌, leb, Bool-cases, Option-cases, All, arith, if◌then◌else◌, ◌==◌, ◌||◌, eq_iff, contains,
}
use fusion_code_modelization.Common.Dict
use fusion_code_modelization.Common.Dict.{Dict, has-keys}
use fusion_code_modelization.Agent.Writer.{relative_to}
use fusion_code_modelization.Snapshot.Files.{
  FileEntry, text_file, binary_file, symlink, Tree, newlines, max_scan_file_bytes, is_walked,
  readable, view, collect_paths, collect_files,
}
use fusion_code_modelization.Snapshot.Files.Laws.{newlines_again, len-newlines-le}

-- The text can be written and is then read as it was.
abbrev pub IsReadable : String → Type 0
IsReadable t = readable (some (text_file t)) ≡ some t

IsReadable-text :
    (s : String) → leb (len s) max_scan_file_bytes ≡ true → IsReadable (newlines false s)
unfolding readable
IsReadable-text s h =
    let small : leb (len (newlines false s)) max_scan_file_bytes ≡ true =
      ground (arith, len-newlines-le false s, h) in
    rw (small, newlines_again false s) refl

readable-IsReadable : (e : Option FileEntry) (t : String) → readable e ≡ some t → IsReadable t
unfolding readable
readable-IsReadable none t h = cc
readable-IsReadable (some symlink) t h = cc
readable-IsReadable (some (binary_file n)) t h = cc
readable-IsReadable (some (text_file s)) t h = elim (Bool-cases (leb (len s) max_scan_file_bytes)) [
  | inl small ↦
      let same : newlines false s ≡ t =
        (let at : some (newlines false s) ≡ some t =
            subst (λ b. (if b then some (newlines false s) else none) ≡ some t) small h in
          cc) in
      subst IsReadable same (IsReadable-text s small)
  | inr large ↦
      let bad : none ≡ some t =
        subst (λ b. (if b then some (newlines false s) else none) ≡ some t) large h in
      cc
]

module _ (root : String) (tree : Tree) (p t : String) (seen : view root tree p ≡ some t) where
  view_parts : (is_walked root p ≡ true) × (readable (Dict.get tree p) ≡ some t)
  unfolding view
  view_parts = elim (Bool-cases (is_walked root p)) [
    | inl y ↦ (y, subst (λ b. (if b then readable (Dict.get tree p) else none) ≡ some t) y seen)
    | inr n ↦
        let bad : none ≡ some t =
          subst (λ b. (if b then readable (Dict.get tree p) else none) ≡ some t) n seen in
        cc
  ]

  -- What is seen can be written and is read as it was.
  pub view-IsReadable : IsReadable t
  view-IsReadable = readable-IsReadable (Dict.get tree p) t view_parts.1

  pub view-walked : is_walked root p ≡ true
  view-walked = view_parts.0

  pub view-there : Dict.has tree p ≡ true
  unfolding readable
  view-there = elim (Option-cases (Dict.get tree p)) [
    | inr (e, at) ↦ rw at refl
    | inl gone ↦ let bad : none ≡ some t = sym (ap readable gone) ∙ view_parts.1 in cc
  ]

-- The list has the path with the content.
abbrev pub Listed : String → String → Dict String → Type 0
Listed rel content [] = ⊥
Listed rel content ((r, c) ∷ files) = ((r ≡ rel) × (c ≡ content)) ⊎ Listed rel content files

-- A path of the project that is seen with the content.
abbrev pub Shows : String → Tree → String × String → Type 0
Shows root tree e = (p : String) × (relative_to p root ≡ e.0) × (view root tree p ≡ some e.1)

module _ (root : String) (tree : Tree) where
  added-Listed :
      (q : String) (o : Option String) (rest : Dict String) (rel t : String)
      → Listed rel t rest
      → Listed rel t (elim o [ none ↦ rest | some c ↦ (relative_to q root, c) ∷ rest ])
  added-Listed q none rest rel t h = h
  added-Listed q (some c) rest rel t h = inr h

  collect_paths-Listed :
      (ps : List String) (p t : String)
      → view root tree p ≡ some t
      → contains ps p ≡ true
      → Listed (relative_to p root) t (collect_paths root tree ps)
  collect_paths-Listed [] p t seen at = cc
  collect_paths-Listed (q ∷ ps) p t seen at = elim (Bool-cases (q == p)) [
    | inl y ↦
        let same : q ≡ p = (eq_iff q p).0 y in
        subst
          (λ x. Listed (relative_to p root) t (elim (view root tree x) [
            | none ↦ collect_paths root tree ps
            | some c ↦ (relative_to x root, c) ∷ collect_paths root tree ps
          ]))
          (sym same) (rw seen (inl (refl, refl)))
    | inr n ↦
        added-Listed q _ _ _ t
          (collect_paths-Listed ps p t seen (sym (ap (λ b. b || contains ps p) n) ∙ at))
  ]

  added-Shows :
      (q : String) (o : Option String) (rest : Dict String)
      → view root tree q ≡ o
      → All (Shows root tree) rest
      → All (Shows root tree) (elim o [ none ↦ rest | some c ↦ (relative_to q root, c) ∷ rest ])
  added-Shows q none rest e h = h
  added-Shows q (some c) rest e h = ((q, refl, e), h)

  collect_paths-Shows : (ps : List String) → All (Shows root tree) (collect_paths root tree ps)
  collect_paths-Shows [] = tt
  collect_paths-Shows (q ∷ ps) = added-Shows q _ _ refl (collect_paths-Shows ps)

  pub collect_files-Listed :
      (p t : String)
      → view root tree p ≡ some t
      → Listed (relative_to p root) t (collect_files root tree)
  unfolding collect_files
  collect_files-Listed p t seen =
      collect_paths-Listed (Dict.keys tree) p t seen
        (has-keys tree p ∙ view-there root tree p t seen)

  pub collect_files-Shows : All (Shows root tree) (collect_files root tree)
  unfolding collect_files
  collect_files-Shows = collect_paths-Shows (Dict.keys tree)
