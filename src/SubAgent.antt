-- ===== src/SubAgent.antt =====
-- internal/agent/subagent.go: an agent that works on one task with a session of its own. The model
-- is that of Agent/Run; `cancelled` of its host is the context with the timeout of the sub-agent.
-- Durations are left out, and so is what is the same in every request.
pub mod ReadOnly
pub mod Turns
mod Tests
use vibe_local_go.Base.{
  ℕ, zero, suc, String, Bool, true, false, not, ◌&&◌, ◌||◌, List, [], ◌∷◌, Option, none, some,
  concat, map, decimal, leb, str_eq, if◌then◌else◌, is_empty, ◌==◌,
}
use vibe_local_go.Session.{
  Session, ToolCall, ToolResult, LlmMessage, new_session, add_user_message, add_assistant_message,
  add_tool_call, add_tool_results, get_messages_for_llm,
}
use vibe_local_go.LoopDetector.{LoopDetector, new_loop_detector, record_tool_call, detect_loop}
use vibe_local_go.Tool.{
  Registry, Tool, FunctionSchema, Executed, returned, raised, get_tool, get_schemas,
}
use vibe_local_go.Dispatch.{is_write_tool}
use vibe_local_go.Agent.{call_record}
use vibe_local_go.Agent.Run.{
  Host, ChatRequest, chat_failed, chatted, Response, response, response_error, request_message,
  parse_chat_response,
}

abbrev pub sub_agent_max_turns : ℕ
sub_agent_max_turns = 20

pub record SubAgent (W : Type 0) : Type 0 where
  pub id : String
  pub registry : Registry W
  pub session : Session
  pub max_turns : ℕ
  pub allow_writes : Bool
  pub loop_detector : LoopDetector

pub record SubAgentResult : Type 0 where
  pub id : String
  pub output : String
  pub error : Option String
  pub turns : ℕ

-- A negative limit counts as 0.
unfoldable pub new_sub_agent : {W : Type 0} → String → Registry W → String → ℕ → Bool → SubAgent W
unfolding new_session new_loop_detector
new_sub_agent id registry system_prompt max_turns allow_writes = record {
  id = id;
  registry = registry;
  session = new_session (concat ("subagent-" ∷ id ∷ [])) system_prompt;
  max_turns =
      (if max_turns == 0 || not (leb max_turns sub_agent_max_turns)
        then sub_agent_max_turns
        else max_turns);
  allow_writes = allow_writes;
  loop_detector = new_loop_detector;
}

-- writeToolNames
abbrev pub is_hidden : FunctionSchema → Bool
is_hidden schema =
    str_eq schema.name "write_file"
    || str_eq schema.name "edit_file"
    || str_eq schema.name "notebook_edit"

unfoldable pub without_hidden : List FunctionSchema → List FunctionSchema
without_hidden [] = []
without_hidden (schema ∷ schemas) =
    let rest = without_hidden schemas in if is_hidden schema then rest else schema ∷ rest

module _ {W : Type 0} (host : Host W) where
  -- The schemas of a request, and the agent with the cache of its registry.
  unfoldable pub get_filtered_schemas : SubAgent W → List FunctionSchema × SubAgent W
  unfolding without_hidden get_schemas
  get_filtered_schemas sa =
      let (schemas, registry) = get_schemas sa.registry in
      (
        (if sa.allow_writes then schemas else without_hidden schemas),
        record sa { registry = registry },
      )

  unfoldable pub call_model : List LlmMessage → W → Response × W
  unfolding parse_chat_response
  call_model messages w =
      let request : ChatRequest = record {
        messages = map request_message messages;
        max_tokens = 0;
      } in
      let (answer, w') = host.chat request w in
      elim answer [
        | chat_failed err ↦ (response_error err, w')
        | chatted choices ↦ (parse_chat_response host choices, w')
      ]

  abbrev pub told : ToolCall → String → ToolResult
  told tc content = record { content = content; tool_call_id = tc.id }

  abbrev pub told_of : ToolCall → Executed → ToolResult
  told_of tc (raised err) =
      told tc (concat ("Error executing " ∷ tc.function.name ∷ ": " ∷ err ∷ []))
  told_of tc (returned r) =
      told tc (if r.is_error then concat ("Error: " ∷ r.error ∷ []) else r.output)

  -- A call that is not blocked.
  unfoldable pub run_sub_tool : ToolCall → SubAgent W → W → ToolResult × SubAgent W × W
  unfolding get_tool record_tool_call
  run_sub_tool tc sa w = elim (get_tool tc.function.name sa.registry) [
    | none ↦ (told tc (concat ("Error: unknown tool '" ∷ tc.function.name ∷ "'" ∷ [])), sa, w)
    | some t ↦
        let (executed, w') = t.execute tc.function.arguments w in
        (
          told_of tc executed,
          record sa { loop_detector = record_tool_call (call_record tc) sa.loop_detector },
          w',
        )
  ]

  abbrev pub is_blocked : SubAgent W → ToolCall → Bool
  is_blocked sa tc = not sa.allow_writes && is_write_tool tc.function.name

  unfoldable pub execute_sub_agent_tools :
      List ToolCall → SubAgent W → W → List ToolResult × SubAgent W × W
  unfolding is_write_tool run_sub_tool
  execute_sub_agent_tools [] sa w = ([], sa, w)
  execute_sub_agent_tools (tc ∷ tcs) sa w = elim (is_blocked sa tc) [
    | true ↦
        let (results, sa', w') = execute_sub_agent_tools tcs sa w in
        (
          told tc "Error: write operations are not allowed in read-only sub-agent mode" ∷ results,
          sa',
          w',
        )
    | false ↦
        let (r, sa₁, w₁) = run_sub_tool tc sa w in
        let (results, sa', w') = execute_sub_agent_tools tcs sa₁ w₁ in (r ∷ results, sa', w')
  ]

  abbrev pub ended : SubAgent W → ℕ → String → Option String → SubAgentResult
  ended sa turns output error = record { id = sa.id; output = output; error = error; turns = turns }

  -- What a turn leads to: the end, or the agent, the world and the last output.
  abbrev pub Turned : Type 0
  Turned = Option SubAgentResult × String × SubAgent W × W

  after_answer : ℕ → String → Response × W → SubAgent W → Turned
  unfolding execute_sub_agent_tools
  after_answer turns last (response_error err, w) sa =
      (some (ended sa turns last (some (concat ("LLM call failed: " ∷ err ∷ [])))), last, sa, w)
  after_answer turns last (response content [], w) sa = (
    some (ended sa turns content none),
    last,
    record sa { session = add_assistant_message content sa.session },
    w,
  )
  after_answer turns last (response content (tc ∷ tcs), w) sa =
      let asked : SubAgent W = record sa { session = add_tool_call (tc ∷ tcs) sa.session } in
      let (results, sa', w') = execute_sub_agent_tools (tc ∷ tcs) asked w in
      (
        none,
        (if str_eq content "" then last else content),
        record sa' { session = add_tool_results results sa'.session },
        w',
      )

  -- One turn of the loop of Run, with its number.
  unfoldable pub sub_turn : ℕ → String → SubAgent W → W → Turned
  unfolding after_answer call_model get_filtered_schemas detect_loop
  sub_turn turns last sa w = elim (detect_loop host.lower host.command_of sa.loop_detector) [
    | true ↦ (some (ended sa turns last (some "sub-agent detected loop, stopping")), last, sa, w)
    | false ↦
        let (messages, session) = get_messages_for_llm sa.session in
        let (schemas, sa') = get_filtered_schemas (record sa { session = session }) in
        after_answer turns last (call_model messages w) sa'
  ]

  -- The loop, with that many turns left, behind as many as `turns`.
  unfoldable pub sub_run_from : ℕ → ℕ → String → SubAgent W → W → SubAgentResult × SubAgent W × W
  unfolding sub_turn
  sub_run_from zero turns last sa w = (
    ended sa turns last
        (some (concat ("sub-agent reached max turns (" ∷ decimal sa.max_turns ∷ ")" ∷ []))),
    sa,
    w,
  )
  sub_run_from (suc left) turns last sa w = elim (host.cancelled w) [
    | some err ↦ (ended sa turns last (some "sub-agent timed out or cancelled"), sa, w)
    | none ↦
        let (end, last', sa', w') = sub_turn (suc turns) last sa w in
        elim end [ some r ↦ (r, sa', w') | none ↦ sub_run_from left (suc turns) last' sa' w' ]
  ]

  unfoldable pub sub_run : String → SubAgent W → W → SubAgentResult × SubAgent W × W
  unfolding sub_run_from
  sub_run task sa w =
      sub_run_from sa.max_turns 0 "" (record sa { session = add_user_message task sa.session }) w
