-- ===== src/Tool/Registered.antt =====
-- What the registry of internal/tool/registry.go holds and serves after any calls.
use vibe_local_go.Base.{
  ◌≡◌, refl, ◌⊎◌, inl, inr, String, List, [], ◌∷◌, none, some, str_eq, string_key, lookup-insert,
  if◌then◌else◌,
}
use vibe_local_go.Tool.{
  Registry, Tool, ToolConfig, new_registry, register_with_options, get, get_schemas, build_schemas,
  apply_options, default_tool_config,
}

-- The calls that change a registry.
pub data RegistryCall (W : Type 0) : Type 0 where
  registers : String → Tool W → List (ToolConfig W → ToolConfig W) → RegistryCall W
  gets_schemas : RegistryCall W

module _ {W : Type 0} where
  abbrev pub apply : RegistryCall W → Registry W → Registry W
  apply (registers name tool opts) r = register_with_options name tool opts r
  apply gets_schemas r = (get_schemas r).1

  abbrev pub run : List (RegistryCall W) → Registry W → Registry W
  run [] r = r
  run (c ∷ cs) r = run cs (apply c r)

  -- A cache that is there holds the schemas of the tools.
  abbrev IsFresh : Registry W → Type 0
  IsFresh r = (r.schema_cache ≡ none) ⊎ (r.schema_cache ≡ some (build_schemas r.tools))

  apply-IsFresh : (c : RegistryCall W) (r : Registry W) → IsFresh r → IsFresh (apply c r)
  unfolding register_with_options get_schemas
  apply-IsFresh (registers name tool opts) r f = inl refl
  apply-IsFresh gets_schemas r (inl e) = rw e (inr refl)
  apply-IsFresh gets_schemas r (inr e) = rw e (inr refl)

  run-IsFresh : (cs : List (RegistryCall W)) (r : Registry W) → IsFresh r → IsFresh (run cs r)
  run-IsFresh [] r f = f
  run-IsFresh (c ∷ cs) r f = run-IsFresh cs (apply c r) (apply-IsFresh c r f)

  serve-IsFresh : (r : Registry W) → IsFresh r → (get_schemas r).0 ≡ build_schemas r.tools
  unfolding get_schemas
  serve-IsFresh r (inl e) = rw e refl
  serve-IsFresh r (inr e) = rw e refl

  -- Whatever tools are registered, and whenever the schemas were asked for before: GetSchemas
  -- returns the schemas of all tools that are registered then.
  get_schemas-run :
      (cs : List (RegistryCall W))
      → let r = run cs new_registry in (get_schemas r).0 ≡ build_schemas r.tools
  unfolding new_registry
  get_schemas-run cs = serve-IsFresh (run cs new_registry) (run-IsFresh cs new_registry (inl refl))

  -- A registered tool is found under its name with its options applied to the default
  -- configuration; it replaces an earlier tool of that name, and no other.
  pub get-register :
      (name other : String) (tool : Tool W) (opts : List (ToolConfig W → ToolConfig W))
      (r : Registry W)
      → get other (register_with_options name tool opts r) ≡ (
          if str_eq name other
          then some (apply_options opts (default_tool_config name tool))
          else get other r)
  unfolding register_with_options get
  get-register name other tool opts r = lookup-insert name other _ r.tools
