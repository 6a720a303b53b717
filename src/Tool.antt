-- ===== src/Tool.antt =====
-- internal/tool/tool.go and internal/tool/registry.go: tools with their configuration, and the
-- registry with its cache of schemas. The registry's lock makes a call one step. `W` is the state
-- of the world, which the execution of a tool may depend on and change.
pub mod Registered
use vibe_local_go.Base.{
  ℕ, ◌*◌, String, Bool, List, [], ◌∷◌, Option, none, some, lookup, insert, map, length, string_key,
}

pub data ToolCategory : Type 0 where
  category_essential category_optional category_enhancing : ToolCategory

pub data ToolFailureStrategy : Type 0 where
  strategy_fatal strategy_retry strategy_skip strategy_fallback : ToolFailureStrategy

pub record ToolMetadata : Type 0 where
  pub name : String
  pub category : ToolCategory
  pub description : String
  pub version : String

-- FunctionSchema, without the field Parameters, which no function here reads.
pub record FunctionSchema : Type 0 where
  pub name : String
  pub description : String

-- tool.Result
pub record ExecResult : Type 0 where
  pub output : String
  pub is_error : Bool
  pub tool_call_id : String
  pub error : String

-- What Execute returns: a result, or an error, by its text.
pub data Executed : Type 0 where
  returned : ExecResult → Executed
  raised : String → Executed

-- The methods of a tool.
pub record Tool (W : Type 0) : Type 0 where
  pub name : String
  pub execute : String → W → Executed × W
  pub schema : FunctionSchema

pub record ToolConfig (W : Type 0) : Type 0 where
  pub name : String
  pub tool : Tool W
  pub metadata : ToolMetadata
  pub failure_strategy : ToolFailureStrategy
  pub max_retries : ℕ
  pub retry_backoff : ℕ

pub record Registry (W : Type 0) : Type 0 where
  pub tools : List (String × ToolConfig W)
  pub schema_cache : Option (List FunctionSchema)

module _ {W : Type 0} where
  unfoldable pub default_tool_config : String → Tool W → ToolConfig W
  default_tool_config name tool = record {
    name = name;
    tool = tool;
    metadata = record {
      name = name;
      category = category_essential;
      description = "";
      version = "";
    };
    failure_strategy = strategy_fatal;
    max_retries = 1;
    retry_backoff = 500 * 1_000_000;
  }

  abbrev pub with_category : ToolCategory → ToolConfig W → ToolConfig W
  with_category category cfg = record cfg { metadata = record cfg.metadata { category = category } }

  abbrev pub with_description : String → ToolConfig W → ToolConfig W
  with_description text cfg = record cfg { metadata = record cfg.metadata { description = text } }

  abbrev pub with_version : String → ToolConfig W → ToolConfig W
  with_version version cfg = record cfg { metadata = record cfg.metadata { version = version } }

  abbrev pub with_failure_strategy : ToolFailureStrategy → ToolConfig W → ToolConfig W
  with_failure_strategy strategy cfg = record cfg { failure_strategy = strategy }

  abbrev pub with_max_retries : ℕ → ToolConfig W → ToolConfig W
  with_max_retries retries cfg = record cfg { max_retries = retries }

  abbrev pub with_retry_backoff : ℕ → ToolConfig W → ToolConfig W
  with_retry_backoff backoff cfg = record cfg { retry_backoff = backoff }

  abbrev pub apply_options : List (ToolConfig W → ToolConfig W) → ToolConfig W → ToolConfig W
  apply_options [] cfg = cfg
  apply_options (opt ∷ opts) cfg = apply_options opts (opt cfg)

  unfoldable pub new_registry : Registry W
  new_registry = record { tools = []; schema_cache = none }

  unfoldable pub register_with_options :
      String → Tool W → List (ToolConfig W → ToolConfig W) → Registry W → Registry W
  unfolding default_tool_config
  register_with_options name tool opts r = record {
    tools = insert name (apply_options opts (default_tool_config name tool)) r.tools;
    schema_cache = none;
  }

  abbrev pub register : Tool W → Registry W → Registry W
  register tool r = register_with_options tool.name tool [] r

  unfoldable pub get : String → Registry W → Option (ToolConfig W)
  unfolding lookup
  get name r = lookup name r.tools

  unfoldable pub get_tool : String → Registry W → Option (Tool W)
  unfolding lookup
  get_tool name r = elim (lookup name r.tools) [ none ↦ none | some cfg ↦ some cfg.tool ]

  unfoldable pub get_metadata : String → Registry W → Option ToolMetadata
  unfolding lookup
  get_metadata name r = elim (lookup name r.tools) [ none ↦ none | some cfg ↦ some cfg.metadata ]

  abbrev pub names : Registry W → List String
  names r = map (λ entry. entry.0) r.tools

  abbrev pub count : Registry W → ℕ
  count r = length r.tools

  abbrev pub build_schemas : List (String × ToolConfig W) → List FunctionSchema
  build_schemas entries = map (λ entry. entry.1.tool.schema) entries

  unfoldable pub get_schemas : Registry W → List FunctionSchema × Registry W
  get_schemas r = elim r.schema_cache [
    | some schemas ↦ (schemas, r)
    | none ↦ (build_schemas r.tools, record r { schema_cache = some (build_schemas r.tools) })
  ]
