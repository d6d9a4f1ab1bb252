-- ===== src/Settings/Layers.antt =====
-- Which file each setting comes from: `LoadFiles` of internal/settings/settings.go.
use coragent.Base.{
  ◌≡◌, ◌≢◌, refl, subst, ◌⊎◌, inl, inr, Bool-cases, Option, none, some, [], ◌∷◌, not, ◌||◌, Bytes,
  blank, arith, zero, suc,
}
use coragent.Base.Int.{ℤ, pos, negsuc}
use coragent.Errors.{ok, ok-injective}
use coragent.Settings.{Settings, File, load_one, load_files, merge, or_text, or_number, or_value}

-- A text is the override's, which is not empty, or else the base's.
abbrev pub TextFrom : (base override got : Bytes) → Type 0
TextFrom base override got = ((override ≢ []) × (got ≡ override)) ⊎ ((override ≡ []) × (got ≡ base))

-- A number is the override's, which is not zero, or else the base's.
abbrev pub NumberFrom : (base override got : ℤ) → Type 0
NumberFrom base override got =
    ((override ≢ pos 0) × (got ≡ override)) ⊎ ((override ≡ pos 0) × (got ≡ base))

-- A value is the override's, which is there, or else the base's.
abbrev pub ValueFrom : {A : Type 0} → (base override got : Option A) → Type 0
ValueFrom base override got =
    ((override ≢ none) × (got ≡ override)) ⊎ ((override ≡ none) × (got ≡ base))

-- The settings of a home file with those of a project over them.
pub record IsLayered (home project s : Settings) : Type 0 where
  pub endpoint : s.provider.endpoint ≡ home.provider.endpoint
  pub credential : s.provider.api_key_env ≡ home.provider.api_key_env
  pub model : TextFrom home.provider.model project.provider.model s.provider.model
  pub window :
      NumberFrom home.provider.context_window project.provider.context_window
        s.provider.context_window
  pub output :
      NumberFrom home.provider.max_output_tokens project.provider.max_output_tokens
        s.provider.max_output_tokens
  pub temperature :
      ValueFrom home.provider.temperature project.provider.temperature s.provider.temperature
  pub seed : ValueFrom home.provider.seed project.provider.seed s.provider.seed
  pub tool_choice :
      TextFrom home.provider.tool_choice project.provider.tool_choice s.provider.tool_choice
  pub preferences : TextFrom home.user_preferences project.user_preferences s.user_preferences

or_text-From : (a b : Bytes) → TextFrom a b (or_text a b)
or_text-From a [] = inr (refl, refl)
or_text-From a (c ∷ b) = inl (λ e. cc e, refl)

or_number-From : (a b : ℤ) → NumberFrom a b (or_number a b)
or_number-From a (pos zero) = inr (refl, refl)
or_number-From a (pos (suc n)) = inl (λ e. ground (arith, e), refl)
or_number-From a (negsuc n) = inl (λ e. cc e, refl)

or_value-From : {A : Type 0} → (a b : Option A) → ValueFrom a b (or_value a b)
or_value-From a none = inr (refl, refl)
or_value-From a (some v) = inl (λ e. cc e, refl)

merge-IsLayered : (h p : Settings) → IsLayered h p (merge h p)
unfolding merge
merge-IsLayered h p = record {
  endpoint = refl;
  credential = refl;
  model = or_text-From h.provider.model p.provider.model;
  window = or_number-From h.provider.context_window p.provider.context_window;
  output = or_number-From h.provider.max_output_tokens p.provider.max_output_tokens;
  temperature = or_value-From h.provider.temperature p.provider.temperature;
  seed = or_value-From h.provider.seed p.provider.seed;
  tool_choice = or_text-From h.provider.tool_choice p.provider.tool_choice;
  preferences = or_text-From h.user_preferences p.user_preferences;
}

-- Settings that load are layered: the endpoint and the variable of the credential come from the home file. Of the
-- other settings the project's value stands, if it is given and neither empty nor zero, and else the home file's.
pub load_files-IsLayered :
    (home project : File) (h p s : Settings)
    → load_one home ≡ ok h
    → load_one project ≡ ok p
    → load_files home project ≡ ok s
    → IsLayered h p s
unfolding load_files
load_files-IsLayered home project h p s f g loaded =
    let k = rw (f, g) at loaded in
    elim (Bool-cases (not (blank p.provider.endpoint) || not (blank p.provider.api_key_env))) [
      | inl e ↦ absurd (ground (arith, e, k))
      | inr e ↦ subst (IsLayered h p) (ok-injective (rw e at k)) (merge-IsLayered h p)
    ]
