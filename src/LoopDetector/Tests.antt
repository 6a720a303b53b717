-- ===== src/LoopDetector/Tests.antt =====
-- Runs of the loop detector (internal/agent/loop_detector.go), and its theorems at concrete calls.
use vibe_local_go.Base.{ℕ, ◌≡◌, refl, String, true, false, List, [], ◌∷◌, Option, none, arith, drop}
use vibe_local_go.LoopDetector.{
  ToolCallRecord, new_loop_detector, record_tool_call, detect_loop, has_similar_bash_loop,
  has_identical_sequence, has_repeating_pattern, generate_tool_call_hash,
}
use vibe_local_go.LoopDetector.History.{record_calls, Seen, record_calls-new_Seen}
use vibe_local_go.LoopDetector.Detection.{detects_repeat}

abbrev call : String → String → ToolCallRecord
call tool args = record { tool_name = tool; arguments = args }

abbrev ascii : ℕ → ℕ
ascii c = c

abbrev undecoded : String → Option String
undecoded args = none

-- The call of ls comes three times, with others between.
abbrev calls : List ToolCallRecord
calls =
    call "bash" "ls"
    ∷ call "glob" "*"
    ∷ call "bash" "ls"
    ∷ call "grep" "a"
    ∷ call "read_file" "b"
    ∷ call "bash" "ls"
    ∷ []

abbrev tests : List ToolCallRecord
tests =
    call "bash" "npm test"
    ∷ call "bash" "  NPX jest x"
    ∷ call "bash" "go test ./..."
    ∷ call "bash" "cd a; pytest"
    ∷ []

hash_run : generate_tool_call_hash "a" "b" ≡ 16600709238102167904
unfolding generate_tool_call_hash
hash_run = refl

finds_tests : detect_loop ascii undecoded (record_calls tests new_loop_detector) ≡ true
unfolding detect_loop record_calls record_tool_call new_loop_detector has_identical_sequence
    has_repeating_pattern has_similar_bash_loop generate_tool_call_hash
finds_tests = refl

one_test_fewer :
    detect_loop ascii undecoded (record_calls (call "glob" "*" ∷ drop 1 tests) new_loop_detector)
    ≡ false
unfolding detect_loop record_calls record_tool_call new_loop_detector has_identical_sequence
    has_repeating_pattern has_similar_bash_loop generate_tool_call_hash
one_test_fewer = refl

record_calls-new_Seen_example : Seen calls (record_calls calls new_loop_detector)
record_calls-new_Seen_example = record_calls-new_Seen calls

detects_repeat_example : detect_loop ascii undecoded (record_calls calls new_loop_detector) ≡ true
detects_repeat_example = detects_repeat ascii undecoded calls (call "bash" "ls") (omega arith)
