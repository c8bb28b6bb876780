-- ===== src/Agent/Writer/Runs.antt =====
-- Sequences of calls of core/safe_writer.py: which files they touch.
use fusion_code_modelization.Common.{
  ◌≡◌, refl, ◌∙◌, subst, inl, inr, true, false, some, List, [], ◌∷◌, not, String, ◌==◌, ◌||◌,
  Bool-cases, eq_iff, ℕ,
}
use fusion_code_modelization.Common.Dict
use fusion_code_modelization.Common.Dict.{Dict, get-set, get-remove}
use fusion_code_modelization.Sandbox.Paths.{is_within}
use fusion_code_modelization.Agent.Hooks.{HookDecision}
use fusion_code_modelization.Agent.Writer.{
  as_text, as_bytes, Content, Disk, SafeWriter, Result, ok, unsafe, Asked, resolve_within, rel_of,
  ask, apply_modify, put_asked, unlink_asked, mkdir_asked, on_resolved, write_text, write_bytes,
  unlink, mkdir,
}
use fusion_code_modelization.Agent.Writer.Laws.{target_of, resolve_cases}

pub data Call : Type 0 where
  text_call : String → String → Call
  bytes_call : String → List ℕ → Call
  unlink_call : String → Call
  mkdir_call : String → Call

module _ (resolve : String → String) (w : SafeWriter) where
  unfoldable pub perform : Disk → Call → Disk
  perform disk (text_call path content) = (write_text resolve w disk path content).0
  perform disk (bytes_call path data_) = (write_bytes resolve w disk path data_).0
  perform disk (unlink_call path) = (unlink resolve w disk path).0
  perform disk (mkdir_call path) = (mkdir resolve w disk path).0

  -- The calls one after the other; one that raises leaves the disk to the next.
  unfoldable pub perform_all : Disk → List Call → Disk
  perform_all disk [] = disk
  perform_all disk (c ∷ cs) = perform_all (perform disk c) cs

  -- What one call does to the files.
  pub data Change (files : Dict Content) : Dict Content → Type 0 where
    unchanged : Change files files
    wrote_text :
        (path target content : String) (d : HookDecision)
        → resolve_within resolve w path ≡ ok target
        → ask w "write" (rel_of w target) (some content) ≡ ok d
        → Change files (Dict.set files target (as_text (apply_modify d content)))
    wrote_bytes :
        (path target : String) (data_ : List ℕ)
        → resolve_within resolve w path ≡ ok target
        → Change files (Dict.set files target (as_bytes data_))
    removed :
        (path target : String)
        → resolve_within resolve w path ≡ ok target
        → Change files (Dict.remove files target)

  text_asked :
      (disk : Disk) (path target content : String) (x : Asked)
      → resolve_within resolve w path ≡ ok target
      → ask w "write" (rel_of w target) (some content) ≡ x
      → Change disk.files (put_asked disk target (λ d. as_text (apply_modify d content)) x).0.files
  text_asked disk path target content (unsafe m) e a = unchanged
  text_asked disk path target content (ok d) e a = wrote_text path target content d e a

  bytes_asked :
      (disk : Disk) (path target : String) (data_ : List ℕ) (x : Asked)
      → resolve_within resolve w path ≡ ok target
      → Change disk.files (put_asked disk target (λ d. as_bytes data_) x).0.files
  bytes_asked disk path target data_ (unsafe m) e = unchanged
  bytes_asked disk path target data_ (ok d) e = wrote_bytes path target data_ e

  unlink-Change :
      (disk : Disk) (path target : String) (x : Asked)
      → resolve_within resolve w path ≡ ok target
      → Change disk.files (unlink_asked disk target x).0.files
  unlink-Change disk path target (unsafe m) e = unchanged
  unlink-Change disk path target (ok d) e = elim (Bool-cases (Dict.has disk.files target)) [
    | inl y ↦ rw y (removed path target e)
    | inr n ↦ rw n unchanged
  ]

  mkdir-Change :
      (disk : Disk) (target : String) (x : Asked)
      → Change disk.files (mkdir_asked disk target x).0.files
  mkdir-Change disk target (unsafe m) = unchanged
  mkdir-Change disk target (ok d) = unchanged

  resolved-Change :
      {A : Type 0} (disk : Disk) (path : String) (x : Result String) (f : String → Disk × Result A)
      → resolve_within resolve w path ≡ x
      → ((target : String)
          → resolve_within resolve w path ≡ ok target
          → Change disk.files (f target).0.files)
      → Change disk.files (on_resolved disk x f).0.files
  resolved-Change disk path (unsafe m) f e h = unchanged
  resolved-Change disk path (ok target) f e h = h target e

  pub perform-Change : (disk : Disk) (c : Call) → Change disk.files (perform disk c).files
  unfolding perform write_text write_bytes unlink mkdir
  perform-Change disk (text_call path content) =
      resolved-Change disk path _ _ refl (λ target e. text_asked disk path target content _ e refl)
  perform-Change disk (bytes_call path data_) =
      resolved-Change disk path _ _ refl (λ target e. bytes_asked disk path target data_ _ e)
  perform-Change disk (unlink_call path) =
      resolved-Change disk path _ _ refl (λ target e. unlink-Change disk path target _ e)
  perform-Change disk (mkdir_call path) =
      resolved-Change disk path _ _ refl (λ target e. mkdir-Change disk target _)

  -- A strict writer resolves to targets inside the project only.
  target_inside :
      (path target : String)
      → w.strict ≡ true
      → resolve_within resolve w path ≡ ok target
      → is_within target w.project_root ≡ true
  target_inside path target strict e = elim (resolve_cases resolve w path) [
    | inl (at, inside) ↦
        subst (λ t. is_within t w.project_root ≡ true)
          (let same : target_of resolve w path ≡ target = cc in same)
          (subst (λ b. not b || is_within (target_of resolve w path) w.project_root ≡ true) strict
            inside)
    | inr (m, at, st, outside) ↦ cc
  ]

  -- So no other file is one of its targets.
  apart :
      (path target p : String)
      → w.strict ≡ true
      → is_within p w.project_root ≡ false
      → resolve_within resolve w path ≡ ok target
      → (target == p) ≡ false
  apart path target p strict out e = elim (Bool-cases (target == p)) [
    | inr n ↦ n
    | inl y ↦
        let inside : is_within p w.project_root ≡ true =
          subst (λ t. is_within t w.project_root ≡ true) ((eq_iff target p).0 y)
            (target_inside path target strict e) in
        cc
  ]

  Change-outside :
      (files files' : Dict Content) (p : String)
      → w.strict ≡ true
      → is_within p w.project_root ≡ false
      → Change files files'
      → Dict.get files' p ≡ Dict.get files p
  Change-outside files files' p strict out unchanged = refl
  Change-outside files files' p strict out (wrote_text path target content d e a) =
      get-set files target p _ ∙ rw (apart path target p strict out e) refl
  Change-outside files files' p strict out (wrote_bytes path target data_ e) =
      get-set files target p _ ∙ rw (apart path target p strict out e) refl
  Change-outside files files' p strict out (removed path target e) =
      get-remove files target p ∙ rw (apart path target p strict out e) refl

  -- Whatever is asked of a strict writer, in any order, and whatever the hooks answer, each file outside
  -- its project keeps its content, or stays absent.
  pub perform_all_outside :
      (cs : List Call) (disk : Disk) (p : String)
      → w.strict ≡ true
      → is_within p w.project_root ≡ false
      → Dict.get (perform_all disk cs).files p ≡ Dict.get disk.files p
  unfolding perform_all
  perform_all_outside [] disk p strict out = refl
  perform_all_outside (c ∷ cs) disk p strict out =
      perform_all_outside cs (perform disk c) p strict out
      ∙ Change-outside disk.files _ p strict out (perform-Change disk c)
