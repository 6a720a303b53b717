-- ===== src/Config.antt =====
-- internal/config/file.go: the settings in config.json, the profiles of the providers, and what a start
-- and the /config and /provider commands do with them. The fields of Config that the file does not
-- touch are left out. A file stands for what json.Unmarshal reads of it. Floating point numbers are
-- the argument `F`, of which the code uses the test for a positive one and zero.
pub mod Reload
pub mod Profiles
mod Tests
use vibe_local_go.Base.{
  ℕ, suc, zero, String, Bool, true, false, not, ◌&&◌, List, [], ◌∷◌, Option, none, some, ltb,
  lookup, insert, remove, string_key, str_eq, if◌then◌else◌,
}

-- int; `negsuc n` is -(n + 1).
pub data ℤ : Type 0 where
  pos : ℕ → ℤ
  negsuc : ℕ → ℤ

abbrev pub above_zero : ℤ → Bool
above_zero (pos n) = ltb 0 n
above_zero (negsuc n) = false

abbrev pub is_set : String → Bool
is_set s = not (str_eq s "")

-- A value of a file, where it is set, and what was there before.
abbrev pub text_or : String → String → String
text_or new old = if is_set new then new else old

abbrev pub number_or : ℤ → ℤ → ℤ
number_or new old = if above_zero new then new else old

pub record ProviderProfile (F : Type 0) : Type 0 where
  pub kind : String  -- the field Type
  pub host : String
  pub api_key : String
  pub model : String
  pub max_tokens : ℤ
  pub temperature : F

pub record ConfigFile (F : Type 0) : Type 0 where
  pub model : String
  pub sidecar_model : String
  pub ollama_host : String
  pub max_tokens : ℤ
  pub temperature : F
  pub context_window : ℤ
  pub ollama_num_ctx : ℤ
  pub ollama_num_gpu : ℤ
  pub provider : String
  pub providers : Option (List (String × ProviderProfile F))  -- none is nil

pub record Config (F : Type 0) : Type 0 where
  pub model : String
  pub sidecar_model : String
  pub auto_model : Bool
  pub max_tokens : ℤ
  pub temperature : F
  pub context_window : ℤ
  pub provider : String
  pub ollama_host : String
  pub ollama_num_ctx : ℤ
  pub ollama_num_gpu : ℤ
  pub cloud_api_keys : List (String × String)

-- A path of configFilePaths; what is read of a file that cannot be parsed stays in the target.
pub data FileState (F : Type 0) : Type 0 where
  missing unreadable : FileState F
  unparsable : ConfigFile F → FileState F
  holds : ConfigFile F → FileState F

-- How os.WriteFile goes: it may fail to open the file, or later, and leave a file cut short.
pub data FileWrite (F : Type 0) : Type 0 where
  write_done not_opened : FileWrite F
  write_cut : FileState F → FileWrite F

-- The float64 operations that the code uses.
pub record Floats (F : Type 0) : Type 0 where
  pub zero : F
  pub positive : F → Bool

module _ {F : Type 0} where
  abbrev pub entries :
      Option (List (String × ProviderProfile F)) → List (String × ProviderProfile F)
  entries none = []
  entries (some m) = m

  abbrev pub profiles_of : ConfigFile F → List (String × ProviderProfile F)
  profiles_of cf = entries cf.providers

  -- The profiles of the first file that can be parsed.
  unfoldable pub get_provider_profiles :
      List (FileState F) → Option (List (String × ProviderProfile F))
  get_provider_profiles [] = none
  get_provider_profiles (holds cf ∷ files) = cf.providers
  get_provider_profiles (missing ∷ files) = get_provider_profiles files
  get_provider_profiles (unreadable ∷ files) = get_provider_profiles files
  get_provider_profiles (unparsable cf ∷ files) = get_provider_profiles files

  -- json.MarshalIndent with omitempty: an empty map is left out. The other values that are left out are
  -- those which a missing field is read as.
  abbrev pub encoded_providers :
      Option (List (String × ProviderProfile F)) → Option (List (String × ProviderProfile F))
  encoded_providers none = none
  encoded_providers (some []) = none
  encoded_providers (some (p ∷ m)) = some (p ∷ m)

  abbrev pub encoded : ConfigFile F → ConfigFile F
  encoded cf = record cf { providers = encoded_providers cf.providers }

  -- Writing the file of the default path, the first one.
  abbrev pub write_file :
      FileWrite F → ConfigFile F → List (FileState F) → List (FileState F) × Bool
  write_file can cf [] = ([], false)
  write_file can cf (f ∷ files) = elim can [
    | write_done ↦ (holds (encoded cf) ∷ files, true)
    | not_opened ↦ (f ∷ files, false)
    | write_cut part ↦ (part ∷ files, false)
  ]

  pub delete_from :
      FileWrite F → String → ConfigFile F → List (FileState F) → List (FileState F) × Bool
  delete_from can key cf files = elim (lookup key (profiles_of cf)) [
    | none ↦ (files, false)
    | some profile ↦
        write_file can
          (record cf {
            providers = some (remove key (profiles_of cf));
            provider = if str_eq cf.provider key then "ollama" else cf.provider;
          })
          files
  ]

  unfoldable pub delete_provider_profile :
      FileWrite F → String → List (FileState F) → List (FileState F) × Bool
  unfolding delete_from
  delete_provider_profile can key [] = ([], false)
  delete_provider_profile can key (holds cf ∷ files) = delete_from can key cf (holds cf ∷ files)
  delete_provider_profile can key (missing ∷ files) = (missing ∷ files, false)
  delete_provider_profile can key (unreadable ∷ files) = (unreadable ∷ files, false)
  delete_provider_profile can key (unparsable cf ∷ files) = (unparsable cf ∷ files, false)

module _ {F : Type 0} (floats : Floats F) where
  abbrev pub float_or : F → F → F
  float_or new old = if floats.positive new then new else old

  -- var cf ConfigFile, and a missing entry of the map.
  abbrev pub empty_file : ConfigFile F
  empty_file = record {
    model = "";
    sidecar_model = "";
    ollama_host = "";
    max_tokens = pos 0;
    temperature = floats.zero;
    context_window = pos 0;
    ollama_num_ctx = pos 0;
    ollama_num_gpu = pos 0;
    provider = "";
    providers = none;
  }

  abbrev pub empty_profile : ProviderProfile F
  empty_profile = record {
    kind = "";
    host = "";
    api_key = "";
    model = "";
    max_tokens = pos 0;
    temperature = floats.zero;
  }

  unfoldable pub apply_provider_profile : ProviderProfile F → Config F → Config F
  apply_provider_profile p c = record c {
    model = text_or p.model c.model;
    auto_model = if is_set p.model then false else c.auto_model;
    ollama_host = if str_eq p.kind "ollama" then text_or p.host c.ollama_host else c.ollama_host;
    cloud_api_keys =
        if not (str_eq p.kind "ollama") && is_set p.api_key
        then insert p.kind p.api_key c.cloud_api_keys
        else c.cloud_api_keys;
    max_tokens = number_or p.max_tokens c.max_tokens;
    temperature = float_or p.temperature c.temperature;
  }

  -- The part of applyConfigFile for the fields that are no profiles.
  abbrev pub apply_fields : ConfigFile F → Config F → Config F
  apply_fields cf c = record c {
    model = text_or cf.model c.model;
    auto_model = if is_set cf.model then false else c.auto_model;
    sidecar_model = text_or cf.sidecar_model c.sidecar_model;
    ollama_host = text_or cf.ollama_host c.ollama_host;
    max_tokens = number_or cf.max_tokens c.max_tokens;
    temperature = float_or cf.temperature c.temperature;
    context_window = number_or cf.context_window c.context_window;
    ollama_num_ctx = number_or cf.ollama_num_ctx c.ollama_num_ctx;
    ollama_num_gpu = number_or cf.ollama_num_gpu c.ollama_num_gpu;
    provider = text_or cf.provider c.provider;
  }

  unfoldable pub apply_config_file : ConfigFile F → Config F → Config F
  apply_config_file cf c =
      let c' = apply_fields cf c in
      elim (lookup c'.provider (profiles_of cf)) [
        | none ↦ c'
        | some profile ↦ apply_provider_profile profile c'
      ]

  unfoldable pub parse_config_file : List (FileState F) → Config F → Config F
  parse_config_file [] c = c
  parse_config_file (holds cf ∷ files) c = apply_config_file cf c
  parse_config_file (missing ∷ files) c = parse_config_file files c
  parse_config_file (unreadable ∷ files) c = parse_config_file files c
  parse_config_file (unparsable cf ∷ files) c = parse_config_file files c

  -- What the target of json.Unmarshal holds, errors ignored.
  abbrev pub loaded_file : FileState F → ConfigFile F
  loaded_file missing = empty_file
  loaded_file unreadable = empty_file
  loaded_file (unparsable cf) = cf
  loaded_file (holds cf) = cf

  abbrev pub read_default : List (FileState F) → ConfigFile F
  read_default [] = empty_file
  read_default (f ∷ files) = loaded_file f

  abbrev pub profile_or_empty : Option (ProviderProfile F) → ProviderProfile F
  profile_or_empty none = empty_profile
  profile_or_empty (some p) = p

  abbrev pub key_or : Option String → String → String
  key_or none old = old
  key_or (some key) old = key

  -- The profile of the active provider that SaveConfigFile writes.
  unfoldable pub saved_profile : Config F → ProviderProfile F → ProviderProfile F
  saved_profile c p = record p {
    kind = c.provider;
    model = c.model;
    host = if str_eq c.provider "ollama" then c.ollama_host else p.host;
    api_key =
        if str_eq c.provider "ollama"
        then p.api_key
        else key_or (lookup c.provider c.cloud_api_keys) p.api_key;
  }

  unfoldable pub saved_file : Config F → ConfigFile F → ConfigFile F
  unfolding saved_profile
  saved_file c cf =
      let old = profile_or_empty (lookup c.provider (profiles_of cf)) in
      record cf {
        provider = c.provider;
        max_tokens = c.max_tokens;
        temperature = c.temperature;
        context_window = c.context_window;
        ollama_num_ctx = c.ollama_num_ctx;
        ollama_num_gpu = c.ollama_num_gpu;
        providers = some (insert c.provider (saved_profile c old) (profiles_of cf));
        model = c.model;
        ollama_host = c.ollama_host;
      }

  unfoldable pub save_config_file :
      FileWrite F → Config F → List (FileState F) → List (FileState F) × Bool
  unfolding saved_file
  save_config_file can c files = write_file can (saved_file c (read_default files)) files

  unfoldable pub save_provider_profile :
      FileWrite F → String → ProviderProfile F → List (FileState F) → List (FileState F) × Bool
  save_provider_profile can key profile files =
      let cf = read_default files in
      write_file can (record cf { providers = some (insert key profile (profiles_of cf)) }) files
