-- ===== src/CodeValidator.antt =====
-- internal/agent/code_validator.go: a script that was written is run once, and its end and its
-- standard error are judged. `W` is the state of the world, in which programs run. A test input that
-- is empty is the same as none: an empty standard input. `table` is unicode.ToLower beyond ASCII.
pub mod Passing
mod Tests
use mathlib.Core.List.{reverse}
use vibe_local_go.Base.{
  ℕ, suc, ◌-◌, String, Bool, true, false, not, ◌&&◌, ◌||◌, List, [], ◌∷◌, ◌++◌, Option, none, some,
  any, leb, str_eq, concat, join, decimal, codes, is_prefix, is_infix, lower_rune, map, take, ◌==◌,
  if◌then◌else◌,
}

-- What ExitCode returns: a code, or -1 for a program that a signal ended.
pub data ExitCode : Type 0 where
  code : ℕ → ExitCode
  signalled : ExitCode

-- The end of a command: Run returned nil, the deadline was exceeded, an ExitError, another error.
pub data Ended : Type 0 where
  ended_well timed_out not_started : Ended
  exited : ExitCode → Ended

pub record Ran : Type 0 where
  pub stdout : String
  pub stderr : String
  pub ended : Ended

pub record CodeValidationResult : Type 0 where
  pub is_success : Bool
  pub exit_code : ExitCode
  pub std_out : String
  pub std_err : String
  pub error_type : String
  pub error_message : String
  pub suggestion : String

-- What ValidateGeneratedScript returns.
pub data Validation : Type 0 where
  invalid : String → Validation
  validated : CodeValidationResult → Validation

pub record Runner (W : Type 0) : Type 0 where
  pub stat : String → W → Option String  -- the error of os.Stat
  pub command : List String → String → W → Ran × W
  pub remove : String → W → W
  pub read_file : String → W → Option String

-- The languages of isScriptExtension.
pub data Script : Type 0 where
  python shell javascript golang : Script

-- filepath.Ext, on the reversed path.
abbrev ext_from : List ℕ → List ℕ → List ℕ
ext_from acc [] = []
ext_from acc (c ∷ cs) =
    let more = ext_from (c ∷ acc) cs in
    if c == b'/' then [] else if c == b'.' then c ∷ acc else more

abbrev is_text : String → List ℕ → Bool
is_text s cs = is_prefix (codes s) cs && is_prefix cs (codes s)

abbrev passing_result : CodeValidationResult
passing_result = record {
  is_success = true;
  exit_code = code 0;
  std_out = "";
  std_err = "";
  error_type = "";
  error_message = "";
  suggestion = "";
}

abbrev pub exit_text : ExitCode → String
exit_text (code n) = decimal n
exit_text signalled = "-1"

abbrev pub is_zero : ExitCode → Bool
is_zero (code n) = n == 0
is_zero signalled = false

abbrev pub has : List ℕ → String → Bool
has stderr word = is_infix (codes word) stderr

-- The last test of each classification.
abbrev pub runtime_error : String → ExitCode → String × String
runtime_error text c =
    if not (is_zero c) then ("runtime_error", concat (text ∷ exit_text c ∷ "）" ∷ [])) else ("", "")

unfoldable pub classify_python_error : List ℕ → ExitCode → String × String
classify_python_error stderr c =
    if has stderr "syntaxerror"
    then ("syntax_error", "Pythonコードに構文エラーがあります。括弧やインデントを確認してください。")
    else if has stderr "eoferror"
    then ("eof_error", "対話入力が必要なスクリプトです。input() ではなく、自動的に計算を行うように修正してください。")
    else if has stderr "modulenotfounderror"
    then ("import_error", "必要なPythonモジュールがインストールされていません。pip install で依存関係をインストールしてください。")
    else if has stderr "nameerror"
    then ("name_error", "変数名が定義されていません。スペルを確認してください。")
    else if has stderr "typeerror"
    then ("type_error", "型エラーです。関数の引数や戻り値の型を確認してください。")
    else runtime_error "スクリプト実行時エラーが発生しました（終了コード: " c

unfoldable pub classify_shell_error : List ℕ → ExitCode → String × String
classify_shell_error stderr c =
    if has stderr "syntax error" || has stderr "unexpected"
    then ("syntax_error", "シェルスクリプトに構文エラーがあります。括弧やクォートを確認してください。")
    else if has stderr "not found"
    then ("not_found", "コマンドまたはファイルが見つかりません。パスを確認してください。")
    else if has stderr "permission denied"
    then ("permission_error", "ファイルへのアクセス権限がありません。chmod で実行権限を付与してください。")
    else runtime_error "スクリプト実行エラー（終了コード: " c

unfoldable pub classify_javascript_error : List ℕ → ExitCode → String × String
classify_javascript_error stderr c =
    if has stderr "syntaxerror"
    then ("syntax_error", "JavaScriptに構文エラーがあります。セミコロンやカッコを確認してください。")
    else if has stderr "referenceerror" || has stderr "not defined"
    then ("reference_error", "変数が定義されていません。スペルを確認してください。")
    else if has stderr "typeerror"
    then ("type_error", "型エラーです。関数の呼び出しを確認してください。")
    else runtime_error "スクリプト実行エラー（終了コード: " c

unfoldable pub classify_go_error : List ℕ → ExitCode → String × String
classify_go_error stderr c =
    if has stderr "undefined"
    then ("name_error", "未定義の変数または関数があります。スペルと宣言を確認してください。")
    else if has stderr "type" && has stderr "mismatch"
    then ("type_error", "型が一致していません。型を確認してください。")
    else runtime_error "スクリプト実行エラー（終了コード: " c

-- GenerateTestInput counts `input(` without overlaps, and a match can have none.
unfoldable pub count_inputs : List ℕ → ℕ
count_inputs [] = 0
count_inputs (c ∷ cs) =
    let rest = count_inputs cs in if is_prefix (codes "input(") (c ∷ cs) then suc rest else rest

abbrev test_values : List String
test_values = "17" ∷ "20" ∷ "42" ∷ "100" ∷ []

abbrev input_text : List String → String
input_text [] = "17\n"
input_text (v ∷ vs) = concat (join "\n" (v ∷ vs) ∷ "\n" ∷ [])

module _ {W : Type 0} (table : ℕ → ℕ) (env : Runner W) where
  -- The language of a path by its extension in lower case.
  unfoldable pub script_of : String → Option Script
  script_of path =
      let ext = map (lower_rune table) (ext_from [] (reverse (codes path))) in
      if is_text ".py" ext
      then some python
      else if is_text ".sh" ext || is_text ".bash" ext
      then some shell
      else if is_text ".js" ext
      then some javascript
      else if is_text ".go" ext
      then some golang
      else none

  abbrev pub lower_codes : String → List ℕ
  lower_codes s = map (lower_rune table) (codes s)

  -- What follows cmd.Run: the end, the classification, the message.
  unfoldable pub judge : String → (List ℕ → ExitCode → String × String) → Ran → CodeValidationResult
  judge label classify ran =
      let judged : ExitCode → CodeValidationResult = λ c.
        let found = classify (lower_codes ran.stderr) c in
        let ok = str_eq found.0 "" && is_zero c in
        record {
          is_success = ok;
          exit_code = c;
          std_out = ran.stdout;
          std_err = ran.stderr;
          error_type = found.0;
          error_message =
              if ok
              then ""
              else concat (label ∷ " error (exit code: " ∷ exit_text c ∷ ")\n" ∷ ran.stderr ∷ []);
          suggestion = found.1;
        } in
      elim ran.ended [
        | timed_out ↦ record {
          is_success = false;
          exit_code = code 0;
          std_out = ran.stdout;
          std_err = ran.stderr;
          error_type = "timeout";
          error_message = "Script execution timeout (30 seconds)";
          suggestion = "スクリプトが無限ループしていないか確認してください。";
        }
        | exited c ↦ judged c
        | ended_well ↦ judged (code 0)
        | not_started ↦ judged (code 0)
      ]

  unfoldable pub validate_python_script : String → String → W → CodeValidationResult × W
  unfolding judge classify_python_error
  validate_python_script path input w =
      let (ran, w') = env.command ("python3" ∷ path ∷ []) input w in
      (judge "Python script" classify_python_error ran, w')

  unfoldable pub validate_shell_script : String → String → W → CodeValidationResult × W
  unfolding judge classify_shell_error
  validate_shell_script path input w =
      let (ran, w') = env.command ("bash" ∷ path ∷ []) input w in
      (judge "Shell script" classify_shell_error ran, w')

  unfoldable pub validate_javascript : String → String → W → CodeValidationResult × W
  unfolding judge classify_javascript_error
  validate_javascript path input w =
      let (ran, w') = env.command ("node" ∷ path ∷ []) input w in
      (judge "JavaScript" classify_javascript_error ran, w')

  -- compileCmd.Run() returned nil
  abbrev pub built : Ended → Bool
  built ended_well = true
  built _ = false

  -- The program is removed at the end, whether it was built or not.
  unfoldable pub validate_go_script : String → String → W → CodeValidationResult × W
  unfolding judge classify_go_error
  validate_go_script path input w =
      let binary = concat (path ∷ ".bin" ∷ []) in
      let (compiled, w₁) = env.command ("go" ∷ "build" ∷ "-o" ∷ binary ∷ path ∷ []) "" w in
      elim (built compiled.ended) [
        | false ↦ (
          record {
            is_success = false;
            exit_code = code 1;
            std_out = "";
            std_err = compiled.stderr;
            error_type = "syntax_error";
            error_message = "Go compilation failed";
            suggestion = "Goコードに構文エラーがあります。修正してください。";
          },
          env.remove binary w₁,
        )
        | true ↦
            let (ran, w₂) = env.command (binary ∷ []) input w₁ in
            (judge "Go script" classify_go_error ran, env.remove binary w₂)
      ]

  unfoldable pub validate_as : Script → String → String → W → CodeValidationResult × W
  unfolding validate_python_script validate_shell_script validate_javascript validate_go_script
  validate_as python path input w = validate_python_script path input w
  validate_as shell path input w = validate_shell_script path input w
  validate_as javascript path input w = validate_javascript path input w
  validate_as golang path input w = validate_go_script path input w

  unfoldable pub validate_generated_script : String → String → W → Validation × W
  unfolding script_of validate_as
  validate_generated_script path input w = elim (script_of path) [
    | none ↦ (validated passing_result, w)
    | some script ↦ elim (env.stat path w) [
      | some err ↦ (invalid (concat ("script file not found: " ∷ err ∷ [])), w)
      | none ↦ let (r, w') = validate_as script path input w in (validated r, w')
    ]
  ]

  unfoldable pub generate_test_input : String → W → String
  unfolding count_inputs
  generate_test_input path w = elim (env.read_file path w) [
    | none ↦ "17\n"
    | some content ↦ input_text (take (count_inputs (codes content)) test_values)
  ]
