-- ===== src/Preparers/Text.antt =====
-- The strings functions of Go that autorest/preparer.go calls.
use Prim.Native.Char.{code}
use Prim.Native.String.{◌++◌}
use go_autorest.Prelude.{
  ℕ, zero, suc, String, Bool, true, false, ◌&&◌, ◌||◌, List, [], ◌∷◌, ◌==◌, if◌then◌else◌, is_empty,
}
use go_autorest.SharedKey.Sorting.{has_prefix}

abbrev pub text_length : String → ℕ
text_length String.[] = 0
text_length (String.◌∷◌ c s) = suc (text_length s)

-- the length of a text without its first character
abbrev pub tail_length : String → ℕ
tail_length String.[] = 0
tail_length (String.◌∷◌ c s) = text_length s

-- strings.Replace of every occurrence of a text that is not empty, from left to right; the number
-- counts the characters of an occurrence that are still to be skipped.
unfoldable pub replacing : String → String → ℕ → String → String
replacing old new n String.[] = ""
replacing old new (suc n) (String.◌∷◌ c s) = replacing old new n s
replacing old new zero (String.◌∷◌ c s) =
    let found = replacing old new (tail_length old) s in
    let rest = replacing old new zero s in
    if has_prefix (String.◌∷◌ c s) old then new ++ found else String.◌∷◌ c rest

abbrev pub replace_all : String → String → String → String
replace_all s old new = replacing old new zero s

-- url.QueryEscape's space, `+`, as `%20`
abbrev pub plus_to_space : String → String
plus_to_space s = replace_all s "+" "%20"

-- `"{" + key + "}"`
abbrev pub braced : String → String
braced key = "{" ++ (key ++ "}")

-- strings.Split by one ASCII character, its code
abbrev pub before_separator : Bool → String → List String → List String
before_separator true c xs = "" ∷ xs
before_separator false c [] = c ∷ []
before_separator false c (x ∷ xs) = (c ++ x) ∷ xs

unfoldable pub split_on : ℕ → String → List String
split_on sep String.[] = "" ∷ []
split_on sep (String.◌∷◌ c s) = before_separator (code c == sep) (String.◌∷◌ c "") (split_on sep s)

-- strings.Contains
unfoldable pub contains : String → String → Bool
contains String.[] part = has_prefix "" part
contains (String.◌∷◌ c s) part =
    let rest = contains s part in has_prefix (String.◌∷◌ c s) part || rest

-- strings.Trim of one ASCII character
unfoldable pub trim_left : ℕ → String → String
trim_left sep String.[] = ""
trim_left sep (String.◌∷◌ c s) =
    let rest = trim_left sep s in if code c == sep then rest else String.◌∷◌ c s

unfoldable pub trim_right : ℕ → String → String
trim_right sep String.[] = ""
trim_right sep (String.◌∷◌ c s) =
    let rest = trim_right sep s in if is_empty rest && code c == sep then "" else String.◌∷◌ c rest

abbrev pub trim : ℕ → String → String
trim sep s = trim_right sep (trim_left sep s)

-- strings.TrimRight(s, "/")
unfoldable pub trim_slashes : String → String
unfolding trim_right
trim_slashes s = trim_right b'/' s
