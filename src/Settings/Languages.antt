-- ===== src/Settings/Languages.antt =====
-- backend/src/config.rs: the list of preferred languages.
use peanut_butter.Prelude.{ℕ, Bool, List, [], ◌∷◌, ◌++◌, ◌==◌, ◌||◌, if◌then◌else◌, is_empty}
use peanut_butter.Text.{Text, codes, text_eq, trim, split, join, member, to_ascii_lowercase}

unfoldable pub is_list_separator : ℕ → Bool
is_list_separator c = c == b',' || c == b'/' || c == b'|' || c == b'+' || c == b' '

-- One round of the loop.
unfoldable pub push_language : List Text → Text → List Text
unfolding trim to_ascii_lowercase text_eq member
push_language out part =
    let code = to_ascii_lowercase (trim part) in
    if is_empty code || text_eq code (codes "all") || member out code then out else out ++ code ∷ []

unfoldable pub push_languages : List Text → List Text → List Text
unfolding push_language
push_languages out [] = out
push_languages out (part ∷ parts) = push_languages (push_language out part) parts

unfoldable pub parse_language_codes : Text → List Text
unfolding split is_list_separator push_languages
parse_language_codes raw = push_languages [] (split raw is_list_separator)

unfoldable pub normalize_language_list : Text → Text
unfolding parse_language_codes join
normalize_language_list raw = join (parse_language_codes raw) (codes ",")
