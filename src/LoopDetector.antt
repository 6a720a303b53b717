-- ===== src/LoopDetector.antt =====
-- internal/agent/loop_detector.go: the detector of repeated tool calls. The histories here stand
-- oldest first, as in the code. `decode` is what json.Unmarshal reads of the field `command` of a
-- call's arguments, `none` on an error; `table` is Go's case table outside of ASCII.
pub mod History
pub mod Detection
mod Tests
use Prim.Native.Nat.{bit_xor}
use mathlib.Core.List.{reverse}
use vibe_local_go.Base.{
  ℕ, zero, suc, ◌+◌, ◌-◌, ◌*◌, ◌/◌, ◌%◌, ◌^◌, String, Bool, true, false, ◌&&◌, ◌||◌, List, [], ◌∷◌,
  ◌++◌, map, Option, none, some, leb, ltb, ◌==◌, if◌then◌else◌, codes, str_eq, length, take, drop,
  any, all, lookup, insert, remove, or_zero, nat_key, string_key, is_infix, is_prefix, lower_rune,
}

abbrev pub max_same_tool_repeat : ℕ
max_same_tool_repeat = 3

abbrev pub loop_history_size : ℕ
loop_history_size = 20

-- The timestamp is always 0 in the code.
pub record ToolCallRecord : Type 0 where
  pub tool_name : String
  pub arguments : String

-- The keys of `hash_counts` are the sums that the code prints with %016x.
pub record LoopDetector : Type 0 where
  pub history : List ToolCallRecord
  pub tool_counts : List (String × ℕ)
  pub hash_counts : List (ℕ × ℕ)
  pub history_size : ℕ

unfoldable pub new_loop_detector : LoopDetector
new_loop_detector = record {
  history = [];
  tool_counts = [];
  hash_counts = [];
  history_size = loop_history_size;
}

-- The UTF-8 bytes of a rune.
utf8 : ℕ → List ℕ
utf8 c =
    if ltb c 0x80
    then c ∷ []
    else if ltb c 0x800
    then (0xC0 + c / 64) ∷ (0x80 + c % 64) ∷ []
    else if ltb c 0x10000
    then (0xE0 + c / 4096) ∷ (0x80 + c / 64 % 64) ∷ (0x80 + c % 64) ∷ []
    else (0xF0 + c / 262144) ∷ (0x80 + c / 4096 % 64) ∷ (0x80 + c / 64 % 64) ∷ (0x80 + c % 64) ∷ []

bytes_of : List ℕ → List ℕ
unfolding utf8
bytes_of [] = []
bytes_of (c ∷ cs) = utf8 c ++ bytes_of cs

-- hash/fnv: the 64-bit FNV-1a sum.
fnv_64a : List ℕ → ℕ → ℕ
fnv_64a [] h = h
fnv_64a (b ∷ bs) h = fnv_64a bs (bit_xor h b * 1099511628211 % 2 ^ 64)

unfoldable pub generate_tool_call_hash : String → String → ℕ
unfolding fnv_64a bytes_of
generate_tool_call_hash tool_name arguments =
    fnv_64a (bytes_of (codes tool_name) ++ b':' ∷ bytes_of (codes arguments)) 14695981039346656037

-- m[k]++
abbrev pub bump_name : String → List (String × ℕ) → List (String × ℕ)
bump_name k m = insert k (or_zero (lookup k m) + 1) m

abbrev pub bump_hash : ℕ → List (ℕ × ℕ) → List (ℕ × ℕ)
bump_hash k m = insert k (or_zero (lookup k m) + 1) m

abbrev pub hash_of : ToolCallRecord → ℕ
hash_of c = generate_tool_call_hash c.tool_name c.arguments

unfoldable pub record_tool_call : ToolCallRecord → LoopDetector → LoopDetector
unfolding lookup insert
record_tool_call c ld = record ld {
  history =
      (if leb ld.history_size (length ld.history) then drop 1 ld.history else ld.history) ++ c ∷ [];
  tool_counts = bump_name c.tool_name ld.tool_counts;
  hash_counts = bump_hash (hash_of c) ld.hash_counts;
}

abbrev pub same_call : ToolCallRecord → ToolCallRecord → Bool
same_call a b = str_eq a.tool_name b.tool_name && str_eq a.arguments b.arguments

-- The functions below read a history from its end: their list is newest first.
abbrev pub identical_newest : List ToolCallRecord → Bool
identical_newest (last ∷ prev1 ∷ prev2 ∷ _) =
    str_eq last.tool_name prev1.tool_name
    && str_eq last.arguments prev1.arguments
    && str_eq last.tool_name prev2.tool_name
    && str_eq last.arguments prev2.arguments
identical_newest _ = false

unfoldable pub has_identical_sequence : LoopDetector → Bool
has_identical_sequence ld = identical_newest (reverse ld.history)

-- How many calls in a row, from the newest on, are `last`.
abbrev pub recent_count : ToolCallRecord → List ToolCallRecord → ℕ
recent_count last [] = 0
recent_count last (c ∷ cs) =
    let rest = recent_count last cs in if same_call c last then suc rest else 0

abbrev pub repeating_newest : List ToolCallRecord → Bool
repeating_newest (last ∷ middle ∷ first ∷ older) =
    if str_eq first.tool_name last.tool_name && str_eq first.arguments last.arguments
    then true
    else leb max_same_tool_repeat (recent_count last (last ∷ middle ∷ first ∷ older))
repeating_newest _ = false

unfoldable pub has_repeating_pattern : LoopDetector → Bool
has_repeating_pattern ld = repeating_newest (reverse ld.history)

-- unicode.IsSpace
abbrev is_space : ℕ → Bool
is_space c =
    (leb 9 c && leb c 13)
    || c == 32
    || c == 0x85
    || c == 0xA0
    || c == 0x1680
    || (leb 0x2000 c && leb c 0x200A)
    || c == 0x2028
    || c == 0x2029
    || c == 0x202F
    || c == 0x205F
    || c == 0x3000

trim_left : List ℕ → List ℕ
trim_left [] = []
trim_left (c ∷ cs) = let rest = trim_left cs in if is_space c then rest else c ∷ cs

-- strings.TrimSpace
unfoldable pub trim_space : List ℕ → List ℕ
unfolding trim_left
trim_space cs = reverse (trim_left (reverse (trim_left cs)))

abbrev test_patterns : List String
test_patterns =
    "npm test" ∷ "npx jest" ∷ "yarn test" ∷ "pytest" ∷ "go test" ∷ "cargo test" ∷ "make test"
    ∷ "npm run test" ∷ "yarn run test" ∷ []

module _ (table : ℕ → ℕ) (decode : String → Option String) where
  unfoldable pub is_test_or_install_command : String → Bool
  unfolding trim_space
  is_test_or_install_command cmd =
      let lower = map (lower_rune table) (trim_space (codes cmd)) in
      any (λ p. is_prefix (codes p) lower || is_infix (codes p) lower) test_patterns

  extract_bash_command : String → String
  extract_bash_command arguments = elim (decode arguments) [
    | none ↦ arguments
    | some command ↦ command
  ]

  unfoldable pub is_test_call : ToolCallRecord → Bool
  unfolding extract_bash_command is_test_or_install_command
  is_test_call c =
      str_eq c.tool_name "bash" && is_test_or_install_command (extract_bash_command c.arguments)

  unfoldable pub count_tests : List ToolCallRecord → ℕ
  unfolding is_test_call
  count_tests [] = 0
  count_tests (c ∷ cs) = (if is_test_call c then 1 else 0) + count_tests cs

  unfoldable pub has_similar_bash_loop : LoopDetector → Bool
  unfolding count_tests
  has_similar_bash_loop ld =
      if ltb (length ld.history) 4 then false else leb 4 (count_tests (take 8 (reverse ld.history)))

  unfoldable pub detect_loop : LoopDetector → Bool
  detect_loop ld =
      if ltb (length ld.history) 3
      then false
      else if any (λ p. leb max_same_tool_repeat p.1) ld.hash_counts
      then true
      else if has_identical_sequence ld
      then true
      else if has_repeating_pattern ld
      then true
      else if has_similar_bash_loop ld
      then true
      else false

unfoldable pub reset : LoopDetector → LoopDetector
reset ld = record ld { history = []; tool_counts = []; hash_counts = [] }

unfoldable pub get_recent_calls : ℕ → LoopDetector → List ToolCallRecord
get_recent_calls n ld =
    if leb (length ld.history) n then ld.history else drop (length ld.history - n) ld.history

-- Whether all calls are of the tool of the first one.
same_tools : List ToolCallRecord → Bool
same_tools [] = true
same_tools (first ∷ cs) = all (λ c. str_eq c.tool_name first.tool_name) (first ∷ cs)

unfoldable pub check_for_stuck_loop : LoopDetector → Bool
unfolding same_tools
check_for_stuck_loop ld =
    if ltb (length ld.history) max_same_tool_repeat
    then false
    else same_tools (drop (length ld.history - max_same_tool_repeat) ld.history)

unfoldable pub get_current_loop_iteration : String → LoopDetector → ℕ
get_current_loop_iteration tool_name ld = or_zero (lookup tool_name ld.tool_counts)

unfoldable pub clear_tool_count : String → LoopDetector → LoopDetector
unfolding remove
clear_tool_count tool_name ld = record ld { tool_counts = remove tool_name ld.tool_counts }

-- The loop over the counts; among equal counts the first that is visited wins.
most_called : List (String × ℕ) → String → ℕ → String × ℕ
most_called [] top max_count = (top, max_count)
most_called ((name, count) ∷ m) top max_count =
    most_called m (if ltb max_count count then name else top)
      (if ltb max_count count then count else max_count)

unfoldable pub get_most_called_tool : LoopDetector → String × ℕ
unfolding most_called
get_most_called_tool ld = most_called ld.tool_counts "" 0
