-- ===== src/Snapshot/Delta.antt =====
-- fusion_code_modelization/snapshot/delta.py. The functions of difflib are parameters: `unified` is
-- `"".join(unified_diff(...))` on the lines of both texts and the path, and `restore` is
-- the list of `difflib.restore(diff.splitlines(keepends=True), which=2)`.
use Prim.Native.String.{◌++◌ as ◌+++◌}
use fusion_code_modelization.Common.{
  ℕ, String, Bool, false, Option, List, [], ◌∷◌, ◌==◌, ◌||◌, if◌then◌else◌,
}
use fusion_code_modelization.Common.Dict.{Dict}

pub record FileDelta : Type 0 where
  pub path : String
  pub old_hash : String
  pub new_hash : String
  pub diff : String
  pub is_new : Bool
  pub is_deleted : Bool

pub record Snapshot : Type 0 where
  pub snapshot_id : String
  pub label : String
  pub deltas : List FileDelta
  pub created_at : ℕ
  pub files : Option (Dict String)

-- `"".join(lines)`
abbrev join : List String → String
join [] = ""
join (l ∷ ls) = l +++ join ls

unfoldable pub compute_delta :
    (String → String → String → String) → String → String → String → FileDelta
compute_delta unified old_content new_content path = record {
  path = path;
  old_hash = "";
  new_hash = "";
  diff = unified old_content new_content path;
  is_new = false;
  is_deleted = false;
}

abbrev patched_or : String → List String → String
patched_or content [] = content
patched_or content (l ∷ ls) = join (l ∷ ls)

unfoldable pub apply_delta : (String → List String) → String → FileDelta → String
apply_delta restore content d =
    if d.is_deleted
    then ""
    else if d.is_new || d.diff == ""
    then content
    else patched_or content (restore d.diff)
