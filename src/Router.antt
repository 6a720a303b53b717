-- ===== src/Router.antt =====
-- internal/llm/routing.go: the router between a main and a sidecar model. A provider is `none` where
-- it is nil; what its calls do to the world `W` is an argument. The loop that keeps the models alive
-- only asks the providers for their health and is left out.
pub mod Loading
mod Tests
use vibe_local_go.Base.{
  ℕ, String, Bool, true, false, not, ◌&&◌, ◌||◌, List, [], ◌∷◌, Option, none, some, str_eq, leb,
  contains, ◌==◌, if◌then◌else◌,
}

-- A provider: whether PullModel fails, `none` where it is no ModelManager.
pub record Provider (W : Type 0) : Type 0 where
  pub pull_model : Option (String → W → Option String × W)

pub record ModelRouter (W : Type 0) : Type 0 where
  pub main_provider : Option (Provider W)
  pub sidecar_provider : Option (Provider W)
  pub main_model : String
  pub sidecar_model : String
  pub use_sidecar : Bool
  pub sidecar_loaded : Bool

-- GetModelTier
unfoldable pub get_model_tier : String → String
get_model_tier model =
    if contains model "72b"
    then "A"
    else if contains model "70b"
    then "B"
    else if contains model "32b" || contains model "30b"
    then "C"
    else if contains model "8b"
    then "D"
    else if contains model "1.5b" || contains model "1.7b"
    then "E"
    else if contains model "7b"
    then "D"
    else if contains model "4b" || contains model "3b"
    then "E"
    else "Unknown"

-- SelectModelByMemory, of the whole gigabytes: all limits are whole.
unfoldable pub select_model_by_memory : ℕ → String
select_model_by_memory memory =
    if leb 256 memory
    then "qwen3:72b"
    else if leb 96 memory
    then "qwen3:32b"
    else if leb 32 memory
    then "qwen3-coder:30b"
    else if leb 16 memory
    then "qwen3:8b"
    else if leb 8 memory
    then "qwen3:4b"
    else "qwen3:1.7b"

module _ {W : Type 0} where
  unfoldable pub new_model_router :
      Option (Provider W) → Option (Provider W) → String → String → ModelRouter W
  new_model_router main sidecar main_model sidecar_model = record {
    main_provider = main;
    sidecar_provider = sidecar;
    main_model = main_model;
    sidecar_model = sidecar_model;
    use_sidecar = false;
    sidecar_loaded = false;
  }

  -- The sidecar model is pulled where its provider can; the error, if any.
  abbrev pub pull : Provider W → String → W → Option String × W
  pull p model w = elim p.pull_model [ none ↦ (none, w) | some pull_with ↦ pull_with model w ]

  unfoldable pub preload_sidecar : ModelRouter W → W → Option String × ModelRouter W × W
  preload_sidecar mr w = elim mr.sidecar_provider [
    | none ↦ (none, mr, w)
    | some p ↦ elim (str_eq mr.sidecar_model "" || mr.sidecar_loaded) [
      | true ↦ (none, mr, w)
      | false ↦
          let (err, w') = pull p mr.sidecar_model w in
          elim err [
            | some e ↦ (some e, mr, w')
            | none ↦ (none, record mr { sidecar_loaded = true }, w')
          ]
    ]
  ]

  unfoldable pub switch_to_main : ModelRouter W → ModelRouter W
  switch_to_main mr = record mr { use_sidecar = false }

  unfoldable pub switch_to_sidecar : ModelRouter W → ModelRouter W
  switch_to_sidecar mr = record mr { use_sidecar = true }

  unfoldable pub get_active_model : ModelRouter W → String
  get_active_model mr = if mr.use_sidecar then mr.sidecar_model else mr.main_model

  -- `none` is nil, whose methods Chat, CheckHealth and Info call.
  unfoldable pub get_active_provider : ModelRouter W → Option (Provider W)
  get_active_provider mr = if mr.use_sidecar then mr.sidecar_provider else mr.main_provider

  unfoldable pub auto_select_model : String → ModelRouter W → ModelRouter W
  auto_select_model task_type mr = record mr {
    use_sidecar =
        (str_eq task_type "code_review" || str_eq task_type "documentation")
        && not (str_eq mr.sidecar_model "");
  }

  -- SwapModelHot where the sidecar is wanted and not in use.
  swap_to_sidecar : ModelRouter W → W → Option String × ModelRouter W × W
  swap_to_sidecar mr w = elim mr.sidecar_provider [
    | none ↦ (none, record mr { use_sidecar = true }, w)
    | some p ↦ elim mr.sidecar_loaded [
      | true ↦ (none, record mr { use_sidecar = true }, w)
      | false ↦
          let (err, w') = pull p mr.sidecar_model w in
          elim err [
            | some e ↦ (some e, mr, w')
            | none ↦ (none, record mr { use_sidecar = true; sidecar_loaded = true }, w')
          ]
    ]
  ]

  unfoldable pub swap_model_hot : Bool → ModelRouter W → W → Option String × ModelRouter W × W
  unfolding swap_to_sidecar
  swap_model_hot true mr w = elim mr.use_sidecar [
    | true ↦ (none, mr, w)
    | false ↦ swap_to_sidecar mr w
  ]
  swap_model_hot false mr w = (none, record mr { use_sidecar = false }, w)
