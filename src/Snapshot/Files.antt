-- ===== src/Snapshot/Files.antt =====
-- The project as snapshot/manager.py sees it: the files that `os.walk` visits, by absolute path, in its
-- order. Directories are not kept. A text is read with universal newlines.
pub mod Laws
pub mod Views
use Prim.Native.Char.{Char, code}
use Prim.Native.String.{◌++◌ as ◌+++◌, len}
use fusion_code_modelization.Common.{
  ℕ, String, Bool, true, false, Option, none, some, List, [], ◌∷◌, leb, not, ◌==◌, ◌&&◌, any,
  contains, if◌then◌else◌,
}
use fusion_code_modelization.Common.Dict
use fusion_code_modelization.Common.Dict.{Dict}
use fusion_code_modelization.Sandbox.Paths.{is_within}
use fusion_code_modelization.Agent.Writer.{relative_to}

-- A text, a file of so many bytes that is no UTF-8, or a symbolic link.
pub data FileEntry : Type 0 where
  text_file : String → FileEntry
  binary_file : ℕ → FileEntry
  symlink : FileEntry

abbrev pub Tree : Type 0
Tree = Dict FileEntry

abbrev pub is_char : ℕ → Char → Bool
is_char n c = leb n (code c) && leb (code c) n

-- How Python reads a text: `\r\n` and `\r` become `\n`. The flag says that `\r` stands before.
unfoldable pub newlines : Bool → String → String
newlines after String.[] = ""
newlines after (String.◌∷◌ c s) =
    let rest = newlines false s in
    let rest_after = newlines true s in
    if is_char 10 c
    then (if after then rest else String.◌∷◌ c rest)
    else if is_char 13 c
    then String.◌∷◌ "\n" rest_after
    else String.◌∷◌ c rest

-- `_MAX_SCAN_FILE_BYTES`
abbrev pub max_scan_file_bytes : ℕ
max_scan_file_bytes = 5242880

abbrev pub ignore_dirs : List String
ignore_dirs =
    ".git" ∷ ".fusion" ∷ "__pycache__" ∷ "node_modules" ∷ ".venv" ∷ ".mypy_cache" ∷ "build" ∷ "dist"
    ∷ "target" ∷ ".pytest_cache" ∷ ".ruff_cache" ∷ ".tox" ∷ []

-- The names of the directories on a relative path; `part` is what is read of the name.
unfoldable pub dir_names : String → String → List String
dir_names part String.[] = []
dir_names part (String.◌∷◌ c s) =
    let inside = dir_names (part +++ String.◌∷◌ c "") s in
    let next = dir_names "" s in if is_char 47 c then part ∷ next else inside

-- The walk reaches the path.
unfoldable pub is_walked : String → String → Bool
is_walked root p =
    is_within p root && not (any (contains ignore_dirs) (dir_names "" (relative_to p root)))

-- What is collected of a file, if anything.
unfoldable pub readable : Option FileEntry → Option String
readable none = none
readable (some symlink) = none
readable (some (binary_file size)) = none
readable (some (text_file s)) =
    if leb (len s) max_scan_file_bytes then some (newlines false s) else none

unfoldable pub view : String → Tree → String → Option String
view root tree p = if is_walked root p then readable (Dict.get tree p) else none

abbrev pub collect_paths : String → Tree → List String → Dict String
collect_paths root tree [] = []
collect_paths root tree (p ∷ ps) =
    let rest = collect_paths root tree ps in
    elim (view root tree p) [ none ↦ rest | some content ↦ (relative_to p root, content) ∷ rest ]

-- `_collect_files`: each path is visited once.
unfoldable pub collect_files : String → Tree → Dict String
collect_files root tree = collect_paths root tree (Dict.keys tree)
