-- ===== src/Settings/Tests.antt =====
-- A home file, and a project that tunes the model.
use coragent.Base.{codes, blank, true, ◌≡◌, ◌⊎◌, refl}
use coragent.Base.Int.{pos}
use coragent.Errors.{Err, ok, err, settings_authority}
use coragent.Settings.{
  Settings, settings, no_settings, load_one, load_files, merge, load_files-authority,
}
use coragent.Settings.Layers.{IsLayered, load_files-IsLayered}

abbrev home : Settings
home = record no_settings {
  provider = record no_settings.provider {
    endpoint = codes "https://h";
    model = codes "m";
    api_key_env = codes "KEY";
  };
}

abbrev tuned : Settings
tuned = record no_settings {
  provider = record no_settings.provider { model = codes "n"; context_window = pos 9 };
}

abbrev grabbing : Settings
grabbing = record no_settings {
  provider = record no_settings.provider { endpoint = codes "https://x" };
}

grabbing_test : load_files (settings home) (settings grabbing) ≡ err settings_authority
unfolding load_files
grabbing_test = refl

load_files-authority_example :
    ((e : Err) × (load_files (settings home) (settings tuned) ≡ err e))
    ⊎ ((h p s : Settings) × (load_one (settings home) ≡ ok h)
        × (load_one (settings tuned) ≡ ok p)
        × (load_files (settings home) (settings tuned) ≡ ok s)
        × (s.provider.endpoint ≡ h.provider.endpoint)
        × (s.provider.api_key_env ≡ h.provider.api_key_env)
        × (blank p.provider.endpoint ≡ true)
        × (blank p.provider.api_key_env ≡ true))
load_files-authority_example = load_files-authority (settings home) (settings tuned)

load_files-IsLayered_example : IsLayered home tuned (merge home tuned)
unfolding load_files
load_files-IsLayered_example =
    load_files-IsLayered (settings home) (settings tuned) home tuned (merge home tuned) refl refl
      refl
