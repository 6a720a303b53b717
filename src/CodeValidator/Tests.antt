-- ===== src/CodeValidator/Tests.antt =====
-- Scripts that are validated (internal/agent/code_validator.go).
use vibe_local_go.Base.{ℕ, ◌+◌, ◌≡◌, refl, true, false, none, some, str_eq, any, if◌then◌else◌}
use vibe_local_go.CodeValidator.{
  Runner, ended_well, exited, not_started, code, validate_generated_script, script_of,
  generate_test_input, python, count_inputs, validate_as, validate_python_script, judge,
  classify_python_error,
}
use vibe_local_go.CodeValidator.Passing.{is_passed, passes, validate_generated_script-passes}

abbrev ascii : ℕ → ℕ
ascii c = c

-- A world that counts the programs run: every file exists and asks for three inputs; node is not
-- installed, python3 fails with a TypeError, and all else ends well.
abbrev env : Runner ℕ
env = record {
  stat = λ path w. none;
  command = λ args input w. (
    record {
      stdout = "";
      stderr = if any (str_eq "python3") args then "TypeError: x" else "";
      ended =
          if any (str_eq "node") args
          then not_started
          else if any (str_eq "python3") args
          then exited (code 1)
          else ended_well;
    },
    w + 1,
  );
  remove = λ path w. w;
  read_file = λ path w. some "a=input(); b = input(x) input";
}

knows_python : script_of ascii env "dir.x/a.PY" ≡ some python
unfolding script_of
knows_python = refl

no_extension : script_of ascii env "dir.py/a" ≡ none
unfolding script_of
no_extension = refl

two_inputs : generate_test_input ascii env "a.py" 0 ≡ "17\n20\n"
unfolding generate_test_input count_inputs
two_inputs = refl

python_fails : is_passed (validate_generated_script ascii env "a.py" "17\n" 0).0 ≡ false
unfolding validate_generated_script script_of validate_as validate_python_script judge
    classify_python_error
python_fails = refl

validate_generated_script-passes_example :
    is_passed (validate_generated_script ascii env "a.js" "17\n" 0).0
    ≡ passes ascii env (script_of ascii env "a.js") "a.js" "17\n" 0
validate_generated_script-passes_example =
    validate_generated_script-passes ascii env "a.js" "17\n" 0 refl

-- The interpreter of a script is not installed, and the script passes.
passes_without_node : passes ascii env (script_of ascii env "a.js") "a.js" "17\n" 0 ≡ true
unfolding script_of
passes_without_node = refl
