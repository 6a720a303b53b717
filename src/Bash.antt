-- ===== src/Bash.antt =====
-- internal/tool/bash.go: how the tool rewrites a command for Python, shortens its output and filters
-- the environment. Texts are lists of bytes, and entries of the environment lists of runes; the spaces
-- of strings.Fields and strings.TrimSpace are those of ASCII. Running a command and its virtual
-- environment are left out.
pub mod Truncating
mod Tests
use mathlib.Core.List.{reverse}
use vibe_local_go.Base.{
  ℕ, zero, suc, ◌+◌, ◌-◌, String, Bool, true, false, not, ◌&&◌, ◌||◌, List, [], ◌∷◌, ◌++◌, Option,
  none, some, length, take, drop, leb, ltb, ◌==◌, any, codes, is_prefix, is_infix, decimal,
  upper_rune, map, if◌then◌else◌,
}
use vibe_local_go.EditFile.{replace_from}

abbrev pub max_output_length : ℕ
max_output_length = 30000

abbrev pub truncate_prefix_length : ℕ
truncate_prefix_length = 15000

-- strings.ReplaceAll(s, old, new)
abbrev replaced : String → String → List ℕ → List ℕ
replaced old new s = replace_from 0 (codes old) (codes new) s

unfoldable pub replace_python_with_python3 : List ℕ → List ℕ
unfolding replace_from
replace_python_with_python3 command =
    if is_infix (codes "python3") command
    then command
    else replaced "; python" "; python3" (
        replaced "&& python" "&& python3" (
          replaced "| python" "| python3" (
            replaced "(python)" "(python3)" (
              replaced "python&" "python3&" (
                replaced "python;" "python3;" (
                  replaced "python|" "python3|" (
                    replaced "python\t" "python3\t" (
                      replaced "python\n" "python3\n"
                        (replaced "python " "python3 " command)))))))))

abbrev is_blank : ℕ → Bool
is_blank c = c == 32 || (leb 9 c && leb c 13)

abbrev trim_front : List ℕ → List ℕ
trim_front [] = []
trim_front (c ∷ cs) = let rest = trim_front cs in if is_blank c then rest else c ∷ cs

-- strings.TrimSpace
abbrev trimmed : List ℕ → List ℕ
trimmed s = reverse (trim_front (reverse (trim_front s)))

-- The first of strings.Fields.
abbrev first_field : List ℕ → List ℕ
first_field [] = []
first_field (c ∷ cs) = let rest = first_field cs in if is_blank c then [] else c ∷ rest

abbrev python_prefixes : List String
python_prefixes =
    "python3 " ∷ "python3\n" ∷ "python " ∷ "python\n" ∷ "pip " ∷ "pip3 " ∷ "pip install" ∷ "uv pip"
    ∷ "uv run" ∷ "pytest" ∷ "mypy" ∷ "ruff" ∷ "black" ∷ "isort" ∷ "flake8" ∷ "flask" ∷ "django"
    ∷ "uvicorn" ∷ "gunicorn" ∷ "streamlit" ∷ []

abbrev is_word : List ℕ → String → Bool
is_word s word = is_prefix (codes word) s && leb (length s) (length (codes word))

unfoldable pub is_python_command : List ℕ → Bool
is_python_command command =
    let cmd = trimmed command in
    let first = first_field cmd in
    any (λ p. is_prefix (codes p) cmd) python_prefixes
    || is_word cmd "python3"
    || is_word cmd "python"
    || is_infix (codes "| python") cmd
    || is_infix (codes "&& python") cmd
    || is_infix (codes "; python") cmd
    || (is_infix (codes ".py") cmd
        && (is_word first "python"
            || is_word first "python3"
            || is_prefix (reverse (codes ".py")) (reverse first)))

-- strings.Index(s, "\n")
unfoldable pub index_newline : List ℕ → Option ℕ
index_newline [] = none
index_newline (c ∷ cs) =
    let rest = index_newline cs in
    if c == 10 then some 0 else elim rest [ none ↦ none | some i ↦ some (suc i) ]

-- strings.LastIndex(s, "\n")
unfoldable pub last_newline : List ℕ → Option ℕ
last_newline [] = none
last_newline (c ∷ cs) = elim (last_newline cs) [
  | some i ↦ some (suc i)
  | none ↦ if c == 10 then some 0 else none
]

-- The beginning of a long output, up to its last line break.
abbrev pub cut_prefix : List ℕ → List ℕ
cut_prefix s = elim (last_newline s) [ none ↦ s | some i ↦ if ltb 0 i then take i s else s ]

-- The end of a long output, behind its first line break.
abbrev pub cut_suffix : List ℕ → List ℕ
cut_suffix s = elim (index_newline s) [ none ↦ s | some i ↦ if ltb 0 i then drop (suc i) s else s ]

-- What stands in place of so many bytes.
abbrev pub omission : ℕ → List ℕ
omission omitted =
    codes "\n\n... [" ++ codes (decimal omitted) ++ codes " characters omitted] ...\n\n"

unfoldable pub truncate_output : List ℕ → List ℕ
unfolding index_newline last_newline
truncate_output output =
    let prefix = cut_prefix (take truncate_prefix_length output) in
    let suffix = cut_suffix (drop (length output - truncate_prefix_length) output) in
    let omitted = length output - length prefix - length suffix in
    if leb (length output) max_output_length then output else prefix ++ omission omitted ++ suffix

abbrev env_patterns : List String
env_patterns = "TOKEN" ∷ "SECRET" ∷ "PASSWORD" ∷ "KEY" ∷ "API_KEY" ∷ "AUTH" ∷ "PRIVATE" ∷ []

-- `table` is strings.ToUpper outside of ASCII; the entries are NAME=value.
unfoldable pub sanitize_env : (ℕ → ℕ) → List (List ℕ) → List (List ℕ)
sanitize_env table [] = []
sanitize_env table (e ∷ es) =
    let rest = sanitize_env table es in
    let sensitive = any (λ p. is_infix (codes p) (map (upper_rune table) e)) env_patterns in
    if sensitive then rest else e ∷ rest
