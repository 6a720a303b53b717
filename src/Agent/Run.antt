-- ===== src/Agent/Run.antt =====
-- The loop of internal/agent/agent.go: Run, the request to the model, and the validation of scripts.
-- The model, the options and the tools of a request are the same in all of them and are left out, and
-- so are the counts of tokens in an answer, which are only shown.
use vibe_local_go.Base.{
  ℕ, zero, suc, ◌+◌, String, Bool, true, false, ◌&&◌, List, [], ◌∷◌, Option, none, some, all,
  concat, map, codes, str_eq, leb, ltb, ◌==◌, if◌then◌else◌,
}
use vibe_local_go.Session.{
  ToolCall, LlmMessage, add_user_message, add_assistant_message, add_tool_call, add_tool_results,
  get_messages_for_llm,
}
use vibe_local_go.LoopDetector.{reset, detect_loop, trim_space}
use vibe_local_go.Tool.{get_schemas}
use vibe_local_go.Dispatch.{ToolResult}
use vibe_local_go.CodeValidator.{
  Runner, CodeValidationResult, invalid, validated, script_of, validate_generated_script,
  generate_test_input,
}
use vibe_local_go.Agent.{Agent, Surroundings, dynamic_max_tokens, execute_tool_calls_with_results}

abbrev pub max_iterations : ℕ
max_iterations = 30

abbrev pub max_validation_attempts : ℕ
max_validation_attempts = 3

-- llm.Message
pub record RequestMessage : Type 0 where
  pub role : String
  pub content : String
  pub tool_id : String

pub record ChatRequest : Type 0 where
  pub messages : List RequestMessage
  pub max_tokens : ℕ

-- A choice of an answer; the arguments of its calls are the raw JSON.
pub record Choice : Type 0 where
  pub content : String
  pub tool_calls : List ToolCall

-- What the provider's Chat returns.
pub data Chatted : Type 0 where
  chat_failed : String → Chatted
  chatted : List Choice → Chatted

-- What Run works with: the provider, the context, the JSON library, the programs, and
-- config.MaxTokens.
pub record Host (W : Type 0) : Type 0 where
  pub surroundings : Surroundings W
  pub runner : Runner W
  pub cancelled : W → Option String  -- ctx.Err()
  pub chat : ChatRequest → W → Chatted × W
  pub object_of : List ℕ → Option String  -- an object, unmarshalled and marshalled again
  pub unquote : String → Option String  -- a string, unmarshalled
  pub command_of : String → Option String  -- the field `command` of arguments
  pub file_path_of : String → Option String  -- the field `file_path`, "" without one
  pub lower : ℕ → ℕ
  pub max_tokens : ℕ

-- What Run returns: nil, or an error.
pub data RunEnd : Type 0 where
  finished : RunEnd
  run_failed : String → RunEnd

pub data Response : Type 0 where
  response_error : String → Response
  response : String → List ToolCall → Response

-- getString(msg, "tool_id"): no message has this key.
abbrev pub request_message : LlmMessage → RequestMessage
request_message m = record { role = m.role; content = m.content; tool_id = "" }

-- The newest call of write_file.
unfoldable pub last_write_file_call : List ToolCall → Option ToolCall
last_write_file_call [] = none
last_write_file_call (tc ∷ tcs) = elim (last_write_file_call tcs) [
  | some later ↦ some later
  | none ↦ if str_eq tc.function.name "write_file" then some tc else none
]

abbrev starts_with_brace : List ℕ → Bool
starts_with_brace [] = false
starts_with_brace (c ∷ cs) = c == b'{'

abbrev failure_text : String → CodeValidationResult → String
failure_text path r = concat (
    "Script validation failed for " ∷ path ∷ ":\nError Type: " ∷ r.error_type ∷ "\nError Message: "
    ∷ r.error_message ∷ "\nStderr: " ∷ r.std_err ∷ "\nSuggestion: " ∷ r.suggestion
    ∷ "\nPlease fix the script and try again." ∷ [])

module _ {W : Type 0} (host : Host W) where
  -- trimmed[0] == '{' and the text is an object
  abbrev as_object : String → Option String
  as_object data_text =
      let trimmed = trim_space (codes data_text) in
      if starts_with_brace trimmed then host.object_of trimmed else none

  -- The loop of normalizeJSONArgs, with that many rounds left.
  unfoldable pub normalize_from : ℕ → String → String
  unfolding trim_space
  normalize_from zero data_text = data_text
  normalize_from (suc n) data_text = elim (as_object data_text) [
    | some marshalled ↦ marshalled
    | none ↦ elim (host.unquote data_text) [
      | some unquoted ↦ normalize_from n unquoted
      | none ↦ data_text
    ]
  ]

  unfoldable pub normalize_json_args : String → String
  unfolding normalize_from
  normalize_json_args raw = normalize_from 3 raw

  abbrev pub parsed_call : ToolCall → ToolCall
  parsed_call tc = record {
    id = tc.id;
    kind = tc.kind;
    function = record {
      name = tc.function.name;
      arguments = normalize_json_args tc.function.arguments;
    };
  }

  unfoldable pub parse_chat_response : List Choice → Response
  unfolding normalize_json_args
  parse_chat_response [] = response_error "no choices in response"
  parse_chat_response (choice ∷ choices) =
      response choice.content (map parsed_call choice.tool_calls)

  unfoldable pub call_llm : List LlmMessage → ℕ → W → Response × W
  unfolding dynamic_max_tokens parse_chat_response
  call_llm messages iteration w =
      let request : ChatRequest = record {
        messages = map request_message messages;
        max_tokens = dynamic_max_tokens host.max_tokens iteration;
      } in
      let (answer, w') = host.chat request w in
      elim answer [
        | chat_failed err ↦ (response_error err, w')
        | chatted choices ↦ (parse_chat_response choices, w')
      ]

  -- A script at this path is validated.
  unfoldable pub validate_script : String → W → Option String × W
  unfolding script_of generate_test_input validate_generated_script
  validate_script path w = elim (script_of host.lower host.runner path) [
    | none ↦ (none, w)
    | some script ↦
        let input = generate_test_input host.lower host.runner path w in
        let (result, w') = validate_generated_script host.lower host.runner path input w in
        elim result [
          | invalid err ↦
              (some (concat ("script validation error for " ∷ path ∷ ": " ∷ err ∷ [])), w')
          | validated r ↦ if r.is_success then (none, w') else (some (failure_text path r), w')
        ]
  ]

  -- The error is what the model is told.
  unfoldable pub validate_generated_scripts : List ToolCall → W → Option String × W
  unfolding last_write_file_call validate_script
  validate_generated_scripts calls w = elim (last_write_file_call calls) [
    | none ↦ (none, w)
    | some tc ↦ elim (host.file_path_of tc.function.arguments) [
      | none ↦ (none, w)
      | some path ↦ validate_script path w
    ]
  ]

  abbrev attempts_text : String
  attempts_text =
      "Script validation failed after 3 attempts. The script may need manual adjustment. Please review the error and either fix it yourself or ask for a different approach."

  -- What follows the validation: whether the loop ends.
  unfoldable pub after_validation :
      Option String → List ToolResult → Agent W → Option RunEnd × Agent W
  after_validation (some err) results a =
      let attempts = a.script_validation_count + 1 in
      if leb max_validation_attempts attempts
      then (
        some finished,
        record a {
          session = add_assistant_message attempts_text a.session;
          script_validation_count = 0;
          loop_detector = reset a.loop_detector;
        },
      )
      else (
        none,
        record a {
          session = add_tool_results (record { content = err; tool_call_id = "" } ∷ []) a.session;
          script_validation_count = attempts;
        },
      )
  after_validation none results a =
      let a' : Agent W = record a { script_validation_count = 0 } in
      if all (λ (r : ToolResult). r.is_success) results then (none, a') else (
        none,
        record a' {
          session =
              add_assistant_message
                "Some tool calls failed. Please review the error messages and try again."
                a'.session;
        },
      )

  -- An answer with these calls.
  unfoldable pub run_calls : List ToolCall → Agent W → W → Option RunEnd × Agent W × W
  unfolding execute_tool_calls_with_results validate_generated_scripts after_validation
  run_calls calls a w =
      let asked : Agent W = record a { session = add_tool_call calls a.session } in
      let (results, agent_results, a₁, w₁) =
        execute_tool_calls_with_results host.surroundings calls asked w in
      let a₂ : Agent W = record a₁ { session = add_tool_results results a₁.session } in
      let (err, w₂) = validate_generated_scripts calls w₁ in
      let (end, a₃) = after_validation err agent_results a₂ in (end, a₃, w₂)

  unfoldable pub after_response : Response × W → Agent W → Option RunEnd × Agent W × W
  unfolding run_calls
  after_response (response_error err, w) a =
      (some (run_failed (concat ("LLM call failed: " ∷ err ∷ []))), a, w)
  after_response (response content [], w) a =
      (some finished, record a { session = add_assistant_message content a.session }, w)
  after_response (response content (tc ∷ tcs), w) a = run_calls (tc ∷ tcs) a w

  abbrev pub is_looping : Agent W → Bool
  is_looping a =
      a.script_validation_count == 0 && detect_loop host.lower host.command_of a.loop_detector

  -- The agent when the messages and the schemas were asked for.
  abbrev pub prepared : Agent W → Agent W
  prepared a = record a {
    session = (get_messages_for_llm a.session).1;
    registry = (get_schemas a.registry).1;
  }

  -- One turn of the loop, with its number; how the loop ends, if it does.
  unfoldable pub iterate : ℕ → Agent W → W → Option RunEnd × Agent W × W
  unfolding call_llm after_response detect_loop
  iterate iteration a w = elim (host.cancelled w) [
    | some err ↦ (some (run_failed err), a, w)
    | none ↦ elim (is_looping a) [
      | true ↦ (some finished, a, w)
      | false ↦
          after_response (call_llm (get_messages_for_llm a.session).0 iteration w) (prepared a)
    ]
  ]

  -- The loop, by fuel, with its counter and its test; `none` is a loop that the fuel does not end.
  unfoldable pub run_from : ℕ → ℕ → Agent W → W → Option RunEnd × Agent W × W
  unfolding iterate
  run_from zero iteration a w = (none, a, w)
  run_from (suc fuel) iteration a w = elim (ltb iteration max_iterations) [
    | false ↦ (some finished, a, w)
    | true ↦
        let (end, a', w') = iterate (iteration + 1) a w in
        elim end [ some e ↦ (some e, a', w') | none ↦ run_from fuel (iteration + 1) a' w' ]
  ]

  abbrev pub started : String → Agent W → Agent W
  started input a = record a {
    loop_detector = reset a.loop_detector;
    script_validation_count = 0;
    session = add_user_message input a.session;
  }

  unfoldable pub run : String → Agent W → W → Option RunEnd × Agent W × W
  unfolding run_from
  run input a w = run_from (suc max_iterations) 0 (started input a) w
