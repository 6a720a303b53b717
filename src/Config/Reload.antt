-- ===== src/Config/Reload.antt =====
-- Settings that are saved and read back by ParseConfigFile (internal/config/file.go).
use vibe_local_go.Base.{
  ◌≡◌, refl, ap, ◌∙◌, String, Bool, true, false, not, ◌&&◌, List, [], ◌∷◌, Option, none, some,
  lookup, insert, string_key, str_eq, eq_iff, lookup-insert, Bool-cases, inl, inr, arith,
  if◌then◌else◌,
}
use vibe_local_go.Config.{
  is_set, text_or, number_or, ProviderProfile, ConfigFile, Config, FileState, Floats, entries,
  profiles_of, encoded_providers, encoded, float_or, apply_fields, apply_provider_profile,
  apply_config_file, parse_config_file, loaded_file, profile_or_empty, key_or, saved_profile,
  saved_file, save_config_file, write_done,
}

module _ {F : Type 0} where
  pub entries-encoded :
      (o : Option (List (String × ProviderProfile F))) → entries (encoded_providers o) ≡ entries o
  entries-encoded none = refl
  entries-encoded (some []) = refl
  entries-encoded (some (p ∷ m)) = refl

module _ {F : Type 0} (floats : Floats F) where
  -- The profile of the provider that a file has.
  abbrev old_profile : Config F → FileState F → ProviderProfile F
  old_profile c f = profile_or_empty floats (lookup c.provider (profiles_of (loaded_file floats f)))

  -- The key that is saved for the provider: that of the settings, or else that of the file.
  abbrev saved_key : Config F → FileState F → String
  saved_key c f = key_or floats (lookup c.provider c.cloud_api_keys) (old_profile c f).api_key

  -- The settings of a start behind the saving of `c`, whose own settings are `c0` without the file. The
  -- limit of tokens and the temperature of the provider's old profile go before those that were saved.
  pub record Reloaded (c c0 : Config F) (f : FileState F) (r : Config F) : Type 0 where
    pub provider : r.provider ≡ c.provider
    pub model : r.model ≡ c.model
    pub auto_model : r.auto_model ≡ false
    pub sidecar_model :
        r.sidecar_model ≡ text_or (loaded_file floats f).sidecar_model c0.sidecar_model
    pub ollama_host : r.ollama_host ≡ text_or c.ollama_host c0.ollama_host
    pub max_tokens :
        r.max_tokens ≡ number_or (old_profile c f).max_tokens (number_or c.max_tokens c0.max_tokens)
    pub temperature :
        r.temperature
        ≡ float_or floats
            (old_profile c f).temperature
            (float_or floats c.temperature c0.temperature)
    pub context_window : r.context_window ≡ number_or c.context_window c0.context_window
    pub ollama_num_ctx : r.ollama_num_ctx ≡ number_or c.ollama_num_ctx c0.ollama_num_ctx
    pub ollama_num_gpu : r.ollama_num_gpu ≡ number_or c.ollama_num_gpu c0.ollama_num_gpu
    pub cloud_api_keys :
        (j : String)
        → lookup j r.cloud_api_keys ≡ (
            if not (str_eq c.provider "ollama") && is_set (saved_key c f) && str_eq c.provider j
            then some (saved_key c f)
            else lookup j c0.cloud_api_keys)

  apply-eq :
      (cf : ConfigFile F) (c0 : Config F) (p : ProviderProfile F)
      → lookup (text_or cf.provider c0.provider) (profiles_of cf) ≡ some p
      → apply_config_file floats cf c0 ≡ apply_provider_profile floats p (apply_fields floats cf c0)
  unfolding apply_config_file
  apply-eq cf c0 p e = rw (apply_config_file, e) refl

  reload-eq :
      (c c0 : Config F) (f : FileState F) (files : List (FileState F))
      → is_set c.provider ≡ true
      → parse_config_file floats (save_config_file floats write_done c (f ∷ files)).0 c0
        ≡ apply_provider_profile floats
            (saved_profile floats c (old_profile c f))
            (apply_fields floats (saved_file floats c (loaded_file floats f)) c0)
  unfolding parse_config_file save_config_file saved_file
  reload-eq c c0 f files h =
      let cf = loaded_file floats f in
      let profile = saved_profile floats c (old_profile c f) in
      let found : lookup (text_or c.provider c0.provider)
            (profiles_of (encoded (saved_file floats c cf)))
          ≡ some profile =
        ap (lookup (text_or c.provider c0.provider))
          (entries-encoded (saved_file floats c cf).providers)
        ∙ rw h (
            lookup-insert c.provider c.provider profile (profiles_of cf)
            ∙ rw ((eq_iff c.provider c.provider).1 refl) refl) in
      apply-eq (encoded (saved_file floats c cf)) c0 profile found

  host-eq :
      (b : Bool) (new other old : String)
      → (if b then text_or (if b then new else other) (text_or new old) else text_or new old)
        ≡ text_or new old
  host-eq true new other old = ground arith
  host-eq false new other old = refl

  keys-eq :
      (j : String) (c : Config F) (f : FileState F) (keys : List (String × String))
      → lookup j (
          let key = (saved_profile floats c (old_profile c f)).api_key in
          if not (str_eq c.provider "ollama") && is_set key
          then insert c.provider key keys
          else keys)
        ≡ (if not (str_eq c.provider "ollama") && is_set (saved_key c f) && str_eq c.provider j
            then some (saved_key c f)
            else lookup j keys)
  unfolding saved_profile
  keys-eq j c f keys = elim (Bool-cases (str_eq c.provider "ollama")) [
    | inl t ↦ rw t refl
    | inr n ↦ elim (Bool-cases (is_set (saved_key c f))) [
      | inl t ↦ rw n (rw t (lookup-insert c.provider j (saved_key c f) keys))
      | inr u ↦ rw n (rw u refl)
    ]
  ]

  -- After the settings are saved with a provider and a model, ParseConfigFile reads the provider, the
  -- model and the key, and each positive number and each address that was saved, but that the limit of
  -- tokens and the temperature in the provider's old profile go before the saved ones. A number that is
  -- not positive is not read: the configuration that is read into keeps its own. What the environment
  -- and the flags change after that is not part of it.
  pub save_config_file-Reloaded :
      (c c0 : Config F) (f : FileState F) (files : List (FileState F))
      → is_set c.provider ≡ true
      → is_set c.model ≡ true
      → Reloaded c c0 f
          (parse_config_file floats (save_config_file floats write_done c (f ∷ files)).0 c0)
  unfolding apply_provider_profile saved_profile saved_file
  save_config_file-Reloaded c c0 f files h k = rw (reload-eq c c0 f files h) (record {
    provider = rw h refl;
    model = rw k refl;
    auto_model = rw k refl;
    sidecar_model = refl;
    ollama_host =
        host-eq (str_eq c.provider "ollama") c.ollama_host (old_profile c f).host c0.ollama_host;
    max_tokens = refl;
    temperature = refl;
    context_window = refl;
    ollama_num_ctx = refl;
    ollama_num_gpu = refl;
    cloud_api_keys = λ j. keys-eq j c f c0.cloud_api_keys;
  })
