-- ===== src/Bash/Tests.antt =====
-- Commands and long outputs (internal/tool/bash.go), and the theorem about outputs.
use vibe_local_go.Base.{
  ◌≡◌, refl, true, false, codes, List, ℕ, zero, suc, [], ◌∷◌, length, ap, arith,
}
use vibe_local_go.Bash.{
  sanitize_env, replace_python_with_python3, is_python_command, truncate_output,
}
use vibe_local_go.Bash.Truncating.{IsShortened, truncate_output-IsShortened}

-- The first pass has put "python3 " in place, and the pass for "| python" adds a second 3.
renames_twice :
    replace_python_with_python3 (codes "cat a | python s.py") ≡ codes "cat a | python33 s.py"
unfolding replace_python_with_python3
renames_twice = refl

renames_module :
    replace_python_with_python3 (codes "cd a && python.exe") ≡ codes "cd a && python3.exe"
unfolding replace_python_with_python3
renames_module = refl

renames_once : replace_python_with_python3 (codes "python s.py") ≡ codes "python3 s.py"
unfolding replace_python_with_python3
renames_once = refl

runs_script : is_python_command (codes " tools/run.py --all ") ≡ true
unfolding is_python_command
runs_script = refl

lists_script : is_python_command (codes "ls a.py") ≡ false
unfolding is_python_command
lists_script = refl

-- The test reads the value as well as the name.
loses_home :
    sanitize_env (λ c. c) (codes "HOME=/home/monkey" ∷ codes "LANG=C" ∷ []) ≡ codes "LANG=C" ∷ []
unfolding sanitize_env
loses_home = refl

-- So many bytes of the letter a.
unfoldable letters : ℕ → List ℕ
letters zero = []
letters (suc n) = 97 ∷ letters n

length-letters : (n : ℕ) → length (letters n) ≡ n
unfolding letters
length-letters zero = refl
length-letters (suc n) = ap (λ k. suc k) (length-letters n)

truncate_output-IsShortened_example : IsShortened (letters 30001) (truncate_output (letters 30001))
truncate_output-IsShortened_example =
    truncate_output-IsShortened (letters 30001) (omega (arith, length-letters 30001))
