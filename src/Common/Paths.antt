-- ===== src/Common/Paths.antt =====
-- Python's `os.path.join`, `os.path.basename`, and the tests on texts that are used with paths.
use Prim.Native.Char.{code}
use Prim.Native.String.{String, ◌++◌ as str_append}
use mathlib.Core.Bool.{Bool, ◌||◌}
use mathlib.Core.List.{List, [], ◌∷◌}
use text.Mathlib.Text.{◌==◌ as str_eq, starts_with}
use ziguijia_translate_ml.Common.Tests.{◌==◌, if◌then◌else◌}
use ziguijia_translate_ml.Common.Texts.{push_front}

-- `p.split("/")`
unfoldable pub split_slashes : String → List String
split_slashes String.[] = String.[] ∷ []
split_slashes (String.◌∷◌ c s) =
    if code c == b'/' then String.[] ∷ split_slashes s else push_front c (split_slashes s)

abbrev last_or : String → List String → String
last_or s [] = s
last_or s (w ∷ ws) = last_or w ws

-- `os.path.basename`: what follows the last slash
unfoldable pub basename : String → String
unfolding split_slashes
basename p = last_or "" (split_slashes p)

-- `s.endswith(t)`
unfoldable pub ends_with : String → String → Bool
ends_with String.[] t = str_eq String.[] t
ends_with (String.◌∷◌ c s) t = str_eq (String.◌∷◌ c s) t || ends_with s t

-- `t in s`
unfoldable pub contains : String → String → Bool
contains String.[] t = str_eq String.[] t
contains (String.◌∷◌ c s) t = starts_with (String.◌∷◌ c s) t || contains s t

-- `p.replace("\\", "/")`
unfoldable pub to_slashes : String → String
to_slashes String.[] = String.[]
to_slashes (String.◌∷◌ c s) =
    if code c == b'\\' then String.◌∷◌ "/" (to_slashes s) else String.◌∷◌ c (to_slashes s)

-- `os.path.join(dir, name)`
unfoldable pub path_join : String → String → String
unfolding ends_with
path_join String.[] name = name
path_join (String.◌∷◌ c dir) name =
    if starts_with name "/"
    then name
    else (if ends_with (String.◌∷◌ c dir) "/"
        then str_append (String.◌∷◌ c dir) name
        else str_append (String.◌∷◌ c dir) (str_append "/" name))
