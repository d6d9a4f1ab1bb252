-- ===== src/Settings.antt =====
-- internal/settings/settings.go: the settings of the home directory and of the project. What a read and a strict decoding
-- of a file give is a parameter.
pub mod Layers
mod Tests
use coragent.Base.{
  ℕ, zero, Bool, true, false, not, ◌&&◌, ◌||◌, ◌≡◌, refl, sym, ap, ◌∙◌, ◌⊎◌, inl, inr, Bool-cases,
  Option, none, some, List, [], ◌∷◌, Bytes, blank, arith, if◌then◌else◌,
}
use coragent.Base.Int.{ℤ, pos, negsuc, leb_ℤ}
use coragent.Errors.{
  Err, Result, ok, err, ◌>>=◌, ◌>>◌, require, Result-cases, unreadable_settings, settings_authority,
  incomplete_settings,
}

-- `Provider`
pub record Provider : Type 0 where
  pub endpoint : Bytes
  pub model : Bytes
  pub context_window : ℤ
  pub max_output_tokens : ℤ
  pub api_key_env : Bytes
  pub temperature : Option Bytes
  pub seed : Option ℤ
  pub tool_choice : Bytes

-- `Settings`
pub record Settings : Type 0 where
  pub provider : Provider
  pub user_preferences : Bytes

-- A settings file: it is missing, or it cannot be read or decoded, or it decodes.
pub data File : Type 0 where
  missing unusable : File
  settings : Settings → File

abbrev pub no_settings : Settings
no_settings = record {
  provider = record {
    endpoint = [];
    model = [];
    context_window = pos 0;
    max_output_tokens = pos 0;
    api_key_env = [];
    temperature = none;
    seed = none;
    tool_choice = [];
  };
  user_preferences = [];
}

-- `loadOne`
unfoldable pub load_one : File → Result Settings
load_one missing = ok no_settings
load_one unusable = err unreadable_settings
load_one (settings s) = ok s

abbrev pub or_text : Bytes → Bytes → Bytes
or_text base override = if blank override then base else override

abbrev pub is_zero : ℤ → Bool
is_zero (pos zero) = true
is_zero _ = false

abbrev pub or_number : ℤ → ℤ → ℤ
or_number base override = if is_zero override then base else override

abbrev pub or_value : {A : Type 0} → Option A → Option A → Option A
or_value base none = base
or_value base (some v) = some v

-- `merge`
unfoldable pub merge : Settings → Settings → Settings
merge base override = record {
  provider = record base.provider {
    model = or_text base.provider.model override.provider.model;
    context_window = or_number base.provider.context_window override.provider.context_window;
    max_output_tokens =
        or_number base.provider.max_output_tokens override.provider.max_output_tokens;
    temperature = or_value base.provider.temperature override.provider.temperature;
    seed = or_value base.provider.seed override.provider.seed;
    tool_choice = or_text base.provider.tool_choice override.provider.tool_choice;
  };
  user_preferences = or_text base.user_preferences override.user_preferences;
}

-- `LoadFiles`
unfoldable pub load_files : File → File → Result Settings
unfolding load_one merge
load_files home_file project_file = do
  home ← load_one home_file
  project ← load_one project_file
  require (not (not (blank project.provider.endpoint) || not (blank project.provider.api_key_env)))
      settings_authority
  ok (merge home project)

-- `Validate`
unfoldable pub validate : Settings → Result (Unit {0})
validate s = do
  require
      (not (blank s.provider.endpoint || blank s.provider.model || blank s.provider.api_key_env))
      incomplete_settings
  require
      (not (leb_ℤ s.provider.context_window (pos 0) || leb_ℤ s.provider.max_output_tokens (pos 0)))
      incomplete_settings

-- Whatever the file of the project holds, loading fails, or the home file loads and the endpoint and the name of the
-- credential's variable are those of the home file, and are absent in the project's.
pub load_files-authority :
    (home project : File)
    → ((e : Err) × (load_files home project ≡ err e))
      ⊎ ((h p s : Settings) × (load_one home ≡ ok h)
          × (load_one project ≡ ok p)
          × (load_files home project ≡ ok s)
          × (s.provider.endpoint ≡ h.provider.endpoint)
          × (s.provider.api_key_env ≡ h.provider.api_key_env)
          × (blank p.provider.endpoint ≡ true)
          × (blank p.provider.api_key_env ≡ true))
unfolding load_files merge
load_files-authority home project = elim (Result-cases (load_one home)) [
  | inl (e, f) ↦ inl (e, rw f refl)
  | inr (h, f) ↦ elim (Result-cases (load_one project)) [
    | inl (e, g) ↦ inl (e, rw (f, g) refl)
    | inr (p, g) ↦
        elim (Bool-cases (not (blank p.provider.endpoint) || not (blank p.provider.api_key_env))) [
          | inl k ↦ inl (settings_authority, rw (f, g, k) refl)
          | inr k ↦ inr (
            h,
            p,
            merge h p,
            f,
            g,
            rw (f, g, k) refl,
            refl,
            refl,
            ground (arith, k),
            ground (arith, k),
          )
        ]
  ]
]
