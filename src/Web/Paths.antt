-- ===== src/Web/Paths.antt =====
-- chatterbox-server/middleware.py, `safe_file_path`. A resolved path is the list of its components:
-- `os.path.realpath` gives an absolute path with no link, no "." and no ".." in it.
use Prim.Native.String.{◌++◌ as str_append}
use ziguijia_translate_ml.Common.{
  String, ◌≡◌, refl, Bool, true, false, Option, none, some, List, [], ◌∷◌, ◌&&◌, ◌||◌, arith,
  str_eq, eq_iff, eq_refl, if◌then◌else◌,
}
use ziguijia_translate_ml.Checkpoint.{list_eq}

abbrev pub Resolved : Type 0
Resolved = List String

-- The path as a text.
unfoldable pub path_text : Resolved → String
path_text [] = "/"
path_text (c ∷ []) = str_append "/" c
path_text (c ∷ d ∷ p) = str_append "/" (str_append c (path_text (d ∷ p)))

-- `os.path.commonpath([p, q])`, of absolute paths
unfoldable pub common_path : (p q : Resolved) → Resolved
common_path [] q = []
common_path (c ∷ p) [] = []
common_path (c ∷ p) (d ∷ q) = let rest = common_path p q in if str_eq c d then c ∷ rest else []

-- `safe_file_path`, for the resolved path of the request and `ALLOWED_FILE_DIRS`
unfoldable pub safe_file_path :
    (allowed_file_dirs : List Resolved)
    → (is_file : String → Bool) → (resolved : Resolved) → Option Resolved
unfolding common_path path_text
safe_file_path [] is_file resolved = none
safe_file_path (allowed ∷ dirs) is_file resolved =
    let rest = safe_file_path dirs is_file resolved in
    if list_eq (common_path resolved allowed) allowed && is_file (path_text resolved)
    then some resolved
    else rest

-- The resolved path lies in the directory, or is the directory.
abbrev pub is_below : (dir path : Resolved) → Bool
is_below [] path = true
is_below (d ∷ dir) [] = false
is_below (d ∷ dir) (c ∷ path) = str_eq c d && is_below dir path

abbrev pub is_below_any : List Resolved → (path : Resolved) → Bool
is_below_any [] path = false
is_below_any (d ∷ dirs) path = is_below d path || is_below_any dirs path

common_path-is_below :
    (path dir : Resolved) → list_eq (common_path path dir) dir ≡ is_below dir path
unfolding common_path
common_path-is_below [] [] = refl
common_path-is_below [] (d ∷ dir) = refl
common_path-is_below (c ∷ path) [] = refl
common_path-is_below (c ∷ path) (d ∷ dir) =
    ground (arith, eq_iff c d, eq_refl c, common_path-is_below path dir)

-- A request may name exactly the files whose resolved path lies in one of the allowed directories, and
-- what it is given is that path.
pub safe_file_path_lem :
    (dirs : List Resolved) (is_file : String → Bool) (resolved : Resolved)
    → safe_file_path dirs is_file resolved
      ≡ (if is_below_any dirs resolved && is_file (path_text resolved) then some resolved else none)
unfolding safe_file_path
safe_file_path_lem [] is_file resolved = refl
safe_file_path_lem (d ∷ dirs) is_file resolved =
    rw (common_path-is_below resolved d) (ground (arith, safe_file_path_lem dirs is_file resolved))
