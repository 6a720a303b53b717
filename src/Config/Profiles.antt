-- ===== src/Config/Profiles.antt =====
-- The profiles of config.json under SaveProviderProfile and DeleteProviderProfile
-- (internal/config/file.go), as a finite map.
use vibe_local_go.Base.{
  ◌≡◌, refl, sym, ap, ◌∙◌, String, Bool, true, false, List, [], ◌∷◌, Option, none, some, lookup,
  insert, remove, string_key, str_eq, eq_iff, lookup-insert, lookup-remove, Bool-cases,
  Option-cases, inl, inr, if◌then◌else◌,
}
use mathlib.Core.Path.{fun_ext}
use vibe_local_go.Config.{
  ProviderProfile, ConfigFile, FileState, FileWrite, write_done, not_opened, missing, unreadable,
  unparsable, holds, Floats, profiles_of, encoded, loaded_file, delete_from,
  delete_provider_profile, save_provider_profile,
}
use vibe_local_go.Config.Reload.{entries-encoded}

-- Calls of the two methods, and whether the file can be opened; writes that are cut are not among them.
pub data Edit (F : Type 0) : Type 0 where
  put : Bool → String → ProviderProfile F → Edit F
  drop : Bool → String → Edit F

module _ {F : Type 0} where
  abbrev outcome : Bool → FileWrite F
  outcome true = write_done
  outcome false = not_opened

  -- The file at the default path, if any, can be parsed or cannot be read at all.
  abbrev pub IsPlain : FileState F → Type 0
  IsPlain (unparsable cf) = ⊥
  IsPlain (holds cf) = Unit
  IsPlain missing = Unit
  IsPlain unreadable = Unit

  absent :
      (key j : String) (m : List (String × ProviderProfile F)) (can : Bool)
      → lookup key m ≡ none
      → lookup j m ≡ (if can then (if str_eq key j then none else lookup j m) else lookup j m)
  absent key j m false n = refl
  absent key j m true n = elim (Bool-cases (str_eq key j)) [
    | inl t ↦ rw t (ap (λ k. lookup k m) (sym ((eq_iff key j).0 t)) ∙ n)
    | inr f ↦ rw f refl
  ]

module _ {F : Type 0} (floats : Floats F) where
  abbrev pub edit : Edit F → List (FileState F) → List (FileState F)
  edit (put can key profile) files =
      (save_provider_profile floats (outcome can) key profile files).0
  edit (drop can key) files = (delete_provider_profile (outcome can) key files).0

  abbrev pub edit_all : List (Edit F) → List (FileState F) → List (FileState F)
  edit_all [] files = files
  edit_all (e ∷ es) files = edit_all es (edit e files)

  -- The same calls on a map from names to profiles.
  abbrev pub Profiles : Type 0
  Profiles = String → Option (ProviderProfile F)

  abbrev pub change : Edit F → Profiles → Profiles
  change (put can key profile) m j =
      if can then (if str_eq key j then some profile else m j) else m j
  change (drop can key) m j = if can then (if str_eq key j then none else m j) else m j

  abbrev pub change_all : List (Edit F) → Profiles → Profiles
  change_all [] m = m
  change_all (e ∷ es) m = change_all es (change e m)

  -- The profiles of the file at the default path, and its other settings.
  abbrev pub stored : FileState F → Profiles
  stored f j = lookup j (profiles_of (loaded_file floats f))

  abbrev pub settings : FileState F → ConfigFile F
  settings f = record (loaded_file floats f) { provider = ""; providers = none }

  -- A file behind an edit: its profiles are `m`, and all else but the active provider is as in `f`.
  pub record Follows (f : FileState F) (m : Profiles) (f' : FileState F) : Type 0 where
    pub plain : IsPlain f'
    pub profiles : (j : String) → stored f' j ≡ m j
    pub frame : settings f' ≡ settings f

  drop-Follows :
      (can : Bool) (key : String) (cf : ConfigFile F) (files : List (FileState F))
      → (f' : FileState F) × (edit (drop can key) (holds cf ∷ files) ≡ f' ∷ files)
        × Follows (holds cf) (change (drop can key) (stored (holds cf))) f'
  unfolding delete_provider_profile delete_from
  drop-Follows can key cf files = elim (Option-cases (lookup key (profiles_of cf))) [
    | inl n ↦ (
      holds cf,
      rw (n, edit, delete_from) refl,
      record { plain = tt; profiles = λ j. absent key j (profiles_of cf) can n; frame = refl },
    )
    | inr (p, e) ↦ elim (Bool-cases can) [
      | inl t ↦
          let m = remove key (profiles_of cf) in
          let provider = if str_eq cf.provider key then "ollama" else cf.provider in
          (
            holds (encoded (record cf { providers = some m; provider = provider })),
            rw (e, edit, delete_from) (rw t refl),
            record {
              plain = tt;
              profiles = λ j.
                  rw t (
                    ap (lookup j) (entries-encoded (some m))
                    ∙ lookup-remove key j (profiles_of cf));
              frame = refl;
            },
          )
      | inr f ↦ (
        holds cf,
        rw (e, edit, delete_from) (rw f refl),
        record { plain = tt; profiles = λ j. rw f refl; frame = refl },
      )
    ]
  ]

  edit-Follows :
      (e : Edit F) (f : FileState F) (files : List (FileState F))
      → IsPlain f
      → (f' : FileState F) × (edit e (f ∷ files) ≡ f' ∷ files) × Follows f (change e (stored f)) f'
  unfolding save_provider_profile delete_provider_profile lookup
  edit-Follows (put false key p) f files h =
      (f, refl, record { plain = h; profiles = λ j. refl; frame = refl })
  edit-Follows (put true key p) f files h =
      let cf = loaded_file floats f in
      let m = insert key p (profiles_of cf) in
      (
        holds (encoded (record cf { providers = some m })),
        refl,
        record {
          plain = tt;
          profiles = λ j.
              ap (lookup j) (entries-encoded (some m)) ∙ lookup-insert key j p (profiles_of cf);
          frame = refl;
        },
      )
  edit-Follows (drop can key) missing files h =
      (missing, refl, record { plain = tt; profiles = λ j. absent key j [] can refl; frame = refl })
  edit-Follows (drop can key) unreadable files h = (
    unreadable,
    refl,
    record { plain = tt; profiles = λ j. absent key j [] can refl; frame = refl },
  )
  edit-Follows (drop can key) (unparsable cf) files h = absurd h
  edit-Follows (drop can key) (holds cf) files h = drop-Follows can key cf files

  change_all-ext :
      (es : List (Edit F)) (m n : Profiles)
      → ((j : String) → m j ≡ n j)
      → (j : String) → change_all es m j ≡ change_all es n j
  change_all-ext es m n h j = ap (λ x. change_all es x j) (fun_ext h)

  -- Where the file at the default path is missing, cannot be read or can be parsed, a sequence of calls to
  -- save and to delete profiles, whose writes succeed or fail to open the file, leaves there the map of
  -- profiles that the same calls leave of a map, those that cannot open the file without effect; the other
  -- files and all other settings but the active provider are as before.
  pub edit_all-Follows :
      (es : List (Edit F)) (f : FileState F) (files : List (FileState F))
      → IsPlain f
      → (f' : FileState F) × (edit_all es (f ∷ files) ≡ f' ∷ files)
        × Follows f (change_all es (stored f)) f'
  edit_all-Follows [] f files h =
      (f, refl, record { plain = h; profiles = λ j. refl; frame = refl })
  edit_all-Follows (e ∷ es) f files h =
      let (g, r, one) = edit-Follows e f files h in
      let (f', r', all) = edit_all-Follows es g files one.plain in
      (
        f',
        ap (edit_all es) r ∙ r',
        record {
          plain = all.plain;
          profiles = λ j.
              all.profiles j ∙ change_all-ext es (stored g) (change e (stored f)) one.profiles j;
          frame = all.frame ∙ one.frame;
        },
      )
