-- ===== src/Sandbox/Paths.antt =====
-- What sandbox/policy.py uses of Python's texts and paths: `in`, `rstrip("/")`, `strip().split()`,
-- `Path(...).name` and `relative_to` on absolute paths.
use Prim.Native.Char.{code}
use Prim.Native.String.{[], ◌∷◌, ◌++◌}
use text.Mathlib.Text.{starts_with, find?}
use fusion_code_modelization.Common.{ℕ, String, Bool, leb, ◌==◌, ◌&&◌, ◌||◌, is_some, if◌then◌else◌}

-- `part in whole`
abbrev pub is_in : String → String → Bool
is_in part whole = is_some (find? whole part)

-- `whole.rstrip("/")`
unfoldable pub rstrip_slash : String → String
rstrip_slash [] = ""
rstrip_slash (c ∷ s) =
    let rest = rstrip_slash s in
    if rest == "" && (leb 47 (code c) && leb (code c) 47) then "" else c ∷ rest

-- The characters at which `split()` cuts.
abbrev is_space : ℕ → Bool
is_space c =
    (leb 9 c && leb c 13)
    || (leb 28 c && leb c 32)
    || (leb 133 c && leb c 133)
    || (leb 160 c && leb c 160)
    || (leb 5760 c && leb c 5760)
    || (leb 8192 c && leb c 8202)
    || (leb 8232 c && leb c 8233)
    || (leb 8239 c && leb c 8239)
    || (leb 8287 c && leb c 8287)
    || (leb 12288 c && leb c 12288)

unfoldable pub word : String → String
word [] = ""
word (c ∷ s) = let rest = word s in if is_space (code c) then "" else c ∷ rest

-- `command.strip().split()[0]`, and `""` where there is no word.
unfoldable pub first_word : String → String
first_word [] = ""
first_word (c ∷ s) = let rest = first_word s in if is_space (code c) then rest else word (c ∷ s)

-- A component of a path counts for its name unless it is empty or `.`.
abbrev keep_part : String → String → String
keep_part last part = if part == "" || part == "." then last else part

-- `last` is the last component so far, `part` the one that is read.
unfoldable pub name_from : String → String → String → String
name_from last part [] = keep_part last part
name_from last part (c ∷ s) =
    name_from (if leb 47 (code c) && leb (code c) 47 then keep_part last part else last)
      (if leb 47 (code c) && leb (code c) 47 then "" else part ++ (c ∷ "")) s

-- `Path(text).name`
abbrev pub base_name : String → String
base_name s = name_from "" "" s

-- `p.relative_to(dir)` does not raise, for absolute paths without `.` and `..`.
abbrev pub is_within : String → String → Bool
is_within p dir = (p == dir) || (dir == "/") || starts_with p (dir ++ "/")
