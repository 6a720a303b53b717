-- ===== src/CodeValidator/Passing.antt =====
-- When a script passes the validation of internal/agent/code_validator.go.
use vibe_local_go.Base.{
  ℕ, ◌≡◌, refl, String, Bool, true, false, not, ◌&&◌, ◌||◌, List, [], ◌∷◌, Option, none, some, any,
  str_eq, concat, arith, Bool-cases, inl, inr, if◌then◌else◌,
}
use vibe_local_go.CodeValidator.{
  ExitCode, code, is_zero, runtime_error, Ended, ended_well, timed_out, not_started, exited, Ran,
  Validation, invalid, validated, Runner, Script, python, shell, javascript, golang, has, built,
  script_of, judge, lower_codes, classify_python_error, classify_shell_error,
  classify_javascript_error, classify_go_error, validate_python_script, validate_shell_script,
  validate_javascript, validate_go_script, validate_as, validate_generated_script,
}

-- The words that make an error of a language: one group all of whose words occur.
abbrev pub error_words : Script → List (List String)
error_words python =
    ("syntaxerror" ∷ [])
    ∷ ("eoferror" ∷ [])
    ∷ ("modulenotfounderror" ∷ [])
    ∷ ("nameerror" ∷ [])
    ∷ ("typeerror" ∷ [])
    ∷ []
error_words shell =
    ("syntax error" ∷ [])
    ∷ ("unexpected" ∷ [])
    ∷ ("not found" ∷ [])
    ∷ ("permission denied" ∷ [])
    ∷ []
error_words javascript =
    ("syntaxerror" ∷ []) ∷ ("referenceerror" ∷ []) ∷ ("not defined" ∷ []) ∷ ("typeerror" ∷ []) ∷ []
error_words golang = ("undefined" ∷ []) ∷ ("type" ∷ "mismatch" ∷ []) ∷ []

abbrev pub has_all : List ℕ → List String → Bool
has_all stderr [] = true
has_all stderr (w ∷ ws) = has stderr w && has_all stderr ws

-- A command that could not be started counts as one that ended well.
abbrev pub is_clear : Ended → Bool
is_clear ended_well = true
is_clear not_started = true
is_clear timed_out = false
is_clear (exited c) = is_zero c

abbrev pub is_passed : Validation → Bool
is_passed (invalid err) = false
is_passed (validated r) = r.is_success

-- The exit code that is judged.
abbrev code_of : Ended → ExitCode
code_of (exited c) = c
code_of _ = code 0

abbrev is_late : Ended → Bool
is_late timed_out = true
is_late _ = false

clear-code : (e : Ended) → is_clear e ≡ not (is_late e) && is_zero (code_of e)
clear-code ended_well = refl
clear-code not_started = refl
clear-code timed_out = refl
clear-code (exited c) = refl

-- A test of a classification whose type of error is not empty.
branch :
    (b : Bool) (x y : String × String)
    → str_eq x.0 "" ≡ false
    → str_eq (if b then x else y).0 "" ≡ (not b && str_eq y.0 "")
branch true x y h = h
branch false x y h = refl

runtime-clean :
    (text : String) (c : ExitCode) → (str_eq (runtime_error text c).0 "" && is_zero c) ≡ is_zero c
runtime-clean text c = elim (Bool-cases (is_zero c)) [ inl t ↦ rw (t) refl | inr f ↦ rw (f) refl ]

-- Five tests in order, then the exit code.
five :
    (a b c d e z r : Bool)
    → (r && z) ≡ z
    → ((not a && (not b && (not c && (not d && (not e && r))))) && z) ≡ (
        not
          ((a && true) || ((b && true) || ((c && true) || ((d && true) || ((e && true) || false)))))
        && z)
five a b c d e z r h = ground arith

four :
    (a b c d z r : Bool)
    → (r && z) ≡ z
    → ((not (a || b) && (not c && (not d && r))) && z)
      ≡ (not ((a && true) || ((b && true) || ((c && true) || ((d && true) || false)))) && z)
four a b c d z r h = ground arith

four' :
    (a b c d z r : Bool)
    → (r && z) ≡ z
    → ((not a && (not (b || c) && (not d && r))) && z)
      ≡ (not ((a && true) || ((b && true) || ((c && true) || ((d && true) || false)))) && z)
four' a b c d z r h = ground arith

three :
    (a b c z r : Bool)
    → (r && z) ≡ z
    → ((not a && (not (b && c) && r)) && z)
      ≡ (not ((a && true) || ((b && (c && true)) || false)) && z)
three a b c z r h = ground arith

abbrev pub classification : Script → List ℕ → ExitCode → String × String
classification python = classify_python_error
classification shell = classify_shell_error
classification javascript = classify_javascript_error
classification golang = classify_go_error

-- No error is found exactly where no group of words occurs and the exit code is 0.
clean :
    (s : Script) (stderr : List ℕ) (c : ExitCode)
    → (str_eq (classification s stderr c).0 "" && is_zero c)
      ≡ (not (any (has_all stderr) (error_words s)) && is_zero c)
unfolding classify_python_error classify_shell_error classify_javascript_error classify_go_error
clean python stderr c =
    let h = has stderr in
    rw
      (
        branch (h "syntaxerror") _ _ refl,
        branch (h "eoferror") _ _ refl,
        branch (h "modulenotfounderror") _ _ refl,
        branch (h "nameerror") _ _ refl,
        branch (h "typeerror") _ _ refl,
      )
      (five (h "syntaxerror") (h "eoferror") (h "modulenotfounderror") (h "nameerror")
        (h "typeerror") (is_zero c) _ (runtime-clean _ c))
clean shell stderr c =
    let h = has stderr in
    rw
      (
        branch (h "syntax error" || h "unexpected") _ _ refl,
        branch (h "not found") _ _ refl,
        branch (h "permission denied") _ _ refl,
      )
      (four (h "syntax error") (h "unexpected") (h "not found") (h "permission denied") (is_zero c)
        _ (runtime-clean _ c))
clean javascript stderr c =
    let h = has stderr in
    rw
      (
        branch (h "syntaxerror") _ _ refl,
        branch (h "referenceerror" || h "not defined") _ _ refl,
        branch (h "typeerror") _ _ refl,
      )
      (four' (h "syntaxerror") (h "referenceerror") (h "not defined") (h "typeerror") (is_zero c) _
        (runtime-clean _ c))
clean golang stderr c =
    let h = has stderr in
    rw (branch (h "undefined") _ _ refl, branch (h "type" && h "mismatch") _ _ refl)
      (three (h "undefined") (h "type") (h "mismatch") (is_zero c) _ (runtime-clean _ c))

module _ {W : Type 0} (table : ℕ → ℕ) (env : Runner W) where
  judge-success :
      (label : String) (s : Script) (out err : String) (e : Ended)
      → (judge table env label
          (classification s)
          (record { stdout = out; stderr = err; ended = e })).is_success
        ≡ (not (any (has_all (lower_codes table env err)) (error_words s)) && is_clear e)
  unfolding judge
  judge-success label s out err ended_well = clean s (lower_codes table env err) (code 0)
  judge-success label s out err not_started = clean s (lower_codes table env err) (code 0)
  judge-success label s out err (exited c) = clean s (lower_codes table env err) c
  judge-success label s out err timed_out = ground arith

  -- The run that is judged: of the script, or of the program that it is compiled to.
  abbrev pub judged_run : Script → String → String → W → Ran
  judged_run python path input w = (env.command ("python3" ∷ path ∷ []) input w).0
  judged_run shell path input w = (env.command ("bash" ∷ path ∷ []) input w).0
  judged_run javascript path input w = (env.command ("node" ∷ path ∷ []) input w).0
  judged_run golang path input w =
      let binary = concat (path ∷ ".bin" ∷ []) in
      let compiled = env.command ("go" ∷ "build" ∷ "-o" ∷ binary ∷ path ∷ []) "" w in
      (env.command (binary ∷ []) input compiled.1).0

  abbrev pub is_built : Script → String → W → Bool
  is_built golang path w =
      let binary = concat (path ∷ ".bin" ∷ []) in
      built table env (env.command ("go" ∷ "build" ∷ "-o" ∷ binary ∷ path ∷ []) "" w).0.ended
  is_built _ path w = true

  -- What ends well and has no error on its standard error passes.
  abbrev pub is_good : Script → Ran → Bool
  is_good s ran =
      not (any (has_all (lower_codes table env ran.stderr)) (error_words s)) && is_clear ran.ended

  judge-good :
      (label : String) (s : Script) (ran : Ran)
      → (judge table env label (classification s) ran).is_success ≡ is_good s ran
  judge-good label s ran = judge-success label s ran.stdout ran.stderr ran.ended

  as-good :
      (s : Script) (path input : String) (w : W)
      → (validate_as table env s path input w).0.is_success
        ≡ (is_built s path w && is_good s (judged_run s path input w))
  unfolding validate_as validate_python_script validate_shell_script validate_javascript
      validate_go_script
  as-good python path input w = judge-good "Python script" python (judged_run python path input w)
  as-good shell path input w = judge-good "Shell script" shell (judged_run shell path input w)
  as-good javascript path input w =
      judge-good "JavaScript" javascript (judged_run javascript path input w)
  as-good golang path input w = elim (Bool-cases (is_built golang path w)) [
    | inl t ↦
        rw (validate_as, validate_go_script, t)
          (judge-good "Go script" golang (judged_run golang path input w))
    | inr f ↦ rw (validate_as, validate_go_script, f) refl
  ]

  abbrev pub passes : Option Script → String → String → W → Bool
  passes none path input w = true
  passes (some s) path input w = is_built s path w && is_good s (judged_run s path input w)

  at_script :
      (o : Option Script) (path input : String) (w : W)
      → script_of table env path ≡ o
      → env.stat path w ≡ none
      → is_passed (validate_generated_script table env path input w).0 ≡ passes o path input w
  unfolding validate_generated_script
  at_script none path input w o h = rw (validate_generated_script, o) refl
  at_script (some s) path input w o h =
      rw (validate_generated_script, o, h) (as-good s path input w)

  -- A file that is found passes exactly where it is no script, or is compiled (Go only), has none of
  -- the error words of its language on its standard error in lower case, and ends with exit code 0 or
  -- is not run at all because its interpreter cannot be started.
  pub validate_generated_script-passes :
      (path input : String) (w : W)
      → env.stat path w ≡ none
      → is_passed (validate_generated_script table env path input w).0
        ≡ passes (script_of table env path) path input w
  validate_generated_script-passes path input w h =
      at_script (script_of table env path) path input w refl h
