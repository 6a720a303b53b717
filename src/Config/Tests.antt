-- ===== src/Config/Tests.antt =====
-- Settings and files (internal/config/file.go), and the theorems about them at an input.
use vibe_local_go.Base.{
  ℕ, ◌≡◌, refl, true, [], ◌∷◌, none, some, ltb, lookup, insert, remove, string_key,
}
use vibe_local_go.Config.{
  pos, negsuc, ProviderProfile, ConfigFile, Config, FileState, missing, holds, Floats, empty_file,
  empty_profile, get_provider_profiles, parse_config_file, apply_config_file,
  apply_provider_profile, save_config_file, saved_file, saved_profile, save_provider_profile,
  delete_provider_profile, delete_from, write_done,
}
use vibe_local_go.Config.Reload.{Reloaded, save_config_file-Reloaded}
use vibe_local_go.Config.Profiles.{
  put, drop, edit_all, change_all, stored, Follows, edit_all-Follows,
}

-- Temperatures in tenths.
abbrev tenths : Floats ℕ
tenths = record { zero = 0; positive = λ t. ltb 0 t }

abbrev defaults : Config ℕ
defaults = record {
  model = "";
  sidecar_model = "";
  auto_model = true;
  max_tokens = pos 8192;
  temperature = 2;
  context_window = pos 32768;
  provider = "ollama";
  ollama_host = "http://localhost:11434";
  ollama_num_ctx = pos 0;
  ollama_num_gpu = negsuc 0;
  cloud_api_keys = [];
}

-- The user sets 16384 tokens and no layer on the GPU.
abbrev chosen : Config ℕ
chosen = record defaults { model = "qwen3:8b"; max_tokens = pos 16384; ollama_num_gpu = pos 0 }

abbrev profile : ProviderProfile ℕ
profile = record (empty_profile tenths) { kind = "ollama"; max_tokens = pos 4096 }

abbrev old_file : ConfigFile ℕ
old_file = record (empty_file tenths) {
  model = "llama3";
  provider = "ollama";
  providers = some (("ollama", profile) ∷ []);
}

abbrev reloaded : Config ℕ
reloaded =
    parse_config_file tenths (save_config_file tenths write_done chosen (holds old_file ∷ [])).0
      defaults

-- The limit that the user saved is not read: that of the old profile stays.
keeps_old_limit : reloaded.max_tokens ≡ pos 4096
unfolding parse_config_file apply_config_file apply_provider_profile save_config_file saved_file
    saved_profile lookup insert
keeps_old_limit = refl

-- The number 0 is not read: the next start has the default.
loses_zero : reloaded.ollama_num_gpu ≡ negsuc 0
unfolding parse_config_file apply_config_file apply_provider_profile save_config_file saved_file
    saved_profile lookup insert
loses_zero = refl

reads_legacy : (parse_config_file tenths (missing ∷ holds old_file ∷ []) defaults).model ≡ "llama3"
unfolding parse_config_file apply_config_file apply_provider_profile lookup
reads_legacy = refl

-- A profile that is saved to a new file at the default path hides the settings of the old path.
hides_legacy :
    (parse_config_file tenths
      (save_provider_profile tenths write_done "groq" profile (missing ∷ holds old_file ∷ [])).0
      defaults).model
    ≡ ""
unfolding parse_config_file apply_config_file apply_provider_profile save_provider_profile lookup
    insert
hides_legacy = refl

-- The only profile goes, and with it the map.
deletes_last :
    get_provider_profiles (delete_provider_profile write_done "ollama" (holds old_file ∷ [])).0
    ≡ none
unfolding get_provider_profiles delete_provider_profile delete_from lookup remove
deletes_last = refl

save_config_file-Reloaded_example : Reloaded tenths chosen defaults (holds old_file) reloaded
save_config_file-Reloaded_example =
    save_config_file-Reloaded tenths chosen defaults (holds old_file) [] refl refl

edit_all-Follows_example :
    (f' : FileState ℕ) × (edit_all tenths
        (put true "groq" profile ∷ drop true "ollama" ∷ [])
        (holds old_file ∷ [])
      ≡ f' ∷ [])
    × Follows tenths
        (holds old_file)
        (change_all tenths
          (put true "groq" profile ∷ drop true "ollama" ∷ [])
          (stored tenths (holds old_file)))
        f'
edit_all-Follows_example =
    edit_all-Follows tenths (put true "groq" profile ∷ drop true "ollama" ∷ []) (holds old_file) []
      tt
