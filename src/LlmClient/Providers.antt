-- ===== src/LlmClient/Providers.antt =====
-- dev_orchestrator/llm_client.py: which wire API a configuration asks for.
use async_native_ai_orchestr.Prelude.{
  ◌≡◌, ◌⊎◌, inl, inr, refl, arith, String, Bool, true, false, not, ◌&&◌, ◌||◌, [], ◌∷◌, List,
  Option, none, some, str_eq, eq_iff, str_append, any, or_else, Bool-cases, if_both, if◌then◌else◌,
}
use async_native_ai_orchestr.Prelude.Dict.{Dict, get}
use async_native_ai_orchestr.Text.{
  lower, strip, lstrip, rstrip, replace_char, has_prefix, rstrip_char,
}
use async_native_ai_orchestr.LlmClient.{
  LlmConfig, ProviderProfile, Checked, good, llm_error, value_error, ◌>>=◌,
}

abbrev chat_profile : String → ProviderProfile
chat_profile id = record {
  id = id;
  default_wire_api = "chat_completions";
  default_api_path = "/chat/completions";
  supports_responses = false;
  supports_chat_completions = true;
}

abbrev responses_profile : String → ProviderProfile
responses_profile id = record {
  id = id;
  default_wire_api = "responses";
  default_api_path = "/responses";
  supports_responses = true;
  supports_chat_completions = false;
}

-- `PROVIDER_PROFILES`
unfoldable pub provider_profiles : Dict ProviderProfile
provider_profiles =
    ("openai-chat-completions", chat_profile "openai-chat-completions")
    ∷ ("openai-responses", responses_profile "openai-responses")
    ∷ ("custom-chat-compatible", chat_profile "custom-chat-compatible")
    ∷ ("custom-responses-compatible", responses_profile "custom-responses-compatible")
    ∷ []

-- `PROFILE_ALIASES`
unfoldable pub profile_aliases : Dict String
profile_aliases =
    ("chat", "openai-chat-completions")
    ∷ ("chat-completions", "openai-chat-completions")
    ∷ ("chat_completions", "openai-chat-completions")
    ∷ ("responses", "openai-responses")
    ∷ ("response", "openai-responses")
    ∷ []

abbrev is_one : List String → String → Bool
is_one names s = any (str_eq s) names

-- `a or b`, for texts
abbrev pub text_or : String → String → String
text_or a b = if str_eq a "" then b else a

-- `_normalize_wire_api`
unfoldable pub normalize_wire_api : String → Checked String
normalize_wire_api value =
    let normalized = replace_char b'-' "_" (lower (strip (text_or value "chat_completions"))) in
    if is_one ("chat" ∷ "chat_completion" ∷ "chat_completions" ∷ []) normalized
    then good "chat_completions"
    else (if is_one ("response" ∷ "responses" ∷ []) normalized
        then good "responses"
        else llm_error (str_append "Unsupported wire API: " value))

-- The name of the profile of a wire API.
abbrev profile_for : String → String
profile_for wire_api =
    if str_eq wire_api "responses" then "openai-responses" else "openai-chat-completions"

abbrev requested_of : LlmConfig → Checked String
requested_of config =
    let requested = replace_char b'_' "-" (lower (strip config.provider_profile)) in
    if str_eq requested ""
    then (normalize_wire_api config.wire_api >>= λ wire_api. good (profile_for wire_api))
    else good requested

-- The profile of a name, after the aliases.
unfoldable pub profile_of : (given requested : String) → Checked ProviderProfile
profile_of given requested =
    elim (get (or_else (get requested profile_aliases) requested) provider_profiles) [
      | some profile ↦ good profile
      | none ↦ llm_error (str_append "Unsupported provider profile: " given)
    ]

-- `resolve_provider_profile`
unfoldable pub resolve_provider_profile : LlmConfig → Checked ProviderProfile
resolve_provider_profile config =
    requested_of config >>= λ requested. profile_of config.provider_profile requested

-- `_effective_wire_api`
unfoldable pub effective_wire_api : LlmConfig → ProviderProfile → Checked String
effective_wire_api config profile =
    if str_eq (strip config.provider_profile) ""
    then normalize_wire_api (text_or config.wire_api profile.default_wire_api)
    else good profile.default_wire_api

-- `_effective_capability`
abbrev pub effective_capability : Option Bool → Bool → Bool
effective_capability given profile_value = or_else given profile_value

-- The authority of a URL is there: `urlparse(s).netloc` behind the scheme, for a text without control characters.
abbrev has_netloc : (scheme : String) → String → Bool
has_netloc scheme s =
    has_prefix s scheme
    && (not (str_eq s scheme)
        && not (any (λ t. has_prefix s (str_append scheme t)) ("/" ∷ "?" ∷ "#" ∷ [])))

-- `_build_url`, by the text of the `ValueError` that `urlparse` raises for a text, as for one of its brackets.
unfoldable pub build_url :
    (parse_error : String → Option String) → LlmConfig → ProviderProfile → Checked String
build_url parse_error config profile =
    let api_base = strip config.api_base in
    let api_path =
      text_or (strip (text_or config.api_path profile.default_api_path)) profile.default_api_path in
    if has_prefix api_path "http://" || has_prefix api_path "https://"
    then good api_path
    else (elim (parse_error api_base) [
      | some text ↦ value_error text
      | none ↦
          if has_netloc "http://" (lower api_base) || has_netloc "https://" (lower api_base)
          then good (
              str_append (rstrip_char b'/' api_base)
                (if has_prefix api_path "/" then api_path else str_append "/" api_path))
          else llm_error "Invalid API base URL. Use an absolute http(s) URL."
    ])

-- A name that is not blank stays so, and a blank one is empty.
blank_requested :
    (config : LlmConfig)
    → strip config.provider_profile ≡ ""
    → requested_of config
      ≡ (normalize_wire_api config.wire_api >>= λ wire_api. good (profile_for wire_api))
unfolding lower replace_char
blank_requested config h = rw (h, requested_of) refl

abbrev AgreesOn : LlmConfig → String → Type 0
AgreesOn config wire_api =
    (profile : ProviderProfile)
    → profile_of config.provider_profile (profile_for wire_api) ≡ good profile
    → profile.default_wire_api ≡ wire_api

agrees_chat : (config : LlmConfig) → AgreesOn config "chat_completions"
unfolding profile_of profile_aliases provider_profiles get
agrees_chat config profile h = ground arith

agrees_responses : (config : LlmConfig) → AgreesOn config "responses"
unfolding profile_of profile_aliases provider_profiles get
agrees_responses config profile h = ground arith

normalize_wire_api-good :
    (v w : String) → normalize_wire_api v ≡ good w → (w ≡ "chat_completions") ⊎ (w ≡ "responses")
unfolding normalize_wire_api
normalize_wire_api-good v w h = go _ _ h
  where
    go :
        (b c : Bool)
        → (if b
            then good "chat_completions"
            else (if c
                then good "responses"
                else llm_error (str_append "Unsupported wire API: " v)))
          ≡ good w
        → (w ≡ "chat_completions") ⊎ (w ≡ "responses")
    go true c e = inl (cc)
    go false true e = inr (cc)
    go false false e = absurd (cc)

AgreesOn-good :
    (config : LlmConfig) (v w : String) → normalize_wire_api v ≡ good w → AgreesOn config w
AgreesOn-good config v w h = elim (normalize_wire_api-good v w h) [
  | inl e ↦ rw e (agrees_chat config)
  | inr e ↦ rw e (agrees_responses config)
]

Checked-cases :
    {A : Type 0} (c : Checked A)
    → ((a : A) × (c ≡ good a))
      ⊎ (((t : String) × (c ≡ llm_error t)) ⊎ ((t : String) × (c ≡ value_error t)))
Checked-cases (good a) = inl (a, refl)
Checked-cases (llm_error t) = inr (inl (t, refl))
Checked-cases (value_error t) = inr (inr (t, refl))

normalize_wire_api_idem :
    (w : String) → (w ≡ "chat_completions") ⊎ (w ≡ "responses") → normalize_wire_api w ≡ good w
unfolding normalize_wire_api lower strip replace_char lstrip rstrip
normalize_wire_api_idem w (inl e) = rw e refl
normalize_wire_api_idem w (inr e) = rw e refl

-- The wire API that `chat` uses is the one of the profile that it resolves, also where the profile is not
-- named and is found by the wire API: the two readings of a configuration agree, whatever it holds.
pub resolve_provider_profile-effective_wire_api :
    (config : LlmConfig) (profile : ProviderProfile)
    → resolve_provider_profile config ≡ good profile
    → effective_wire_api config profile ≡ good profile.default_wire_api
unfolding resolve_provider_profile effective_wire_api
resolve_provider_profile-effective_wire_api config profile h =
    elim (Bool-cases (str_eq (strip config.provider_profile) "")) [
      | inr named ↦ rw (named, effective_wire_api)
      | inl blank ↦
          let h' = rw (blank_requested config ((eq_iff _ _).0 blank)) at h in
          rw (blank, effective_wire_api)
            (elim (Checked-cases (normalize_wire_api config.wire_api)) [
              | inl (w, e) ↦
                  let same = AgreesOn-good config config.wire_api w e profile (rw e at h') in
                  if_both {A = String} (λ v. normalize_wire_api v ≡ good profile.default_wire_api)
                    (str_eq config.wire_api "")
                    (λ _.
                      rw same
                        (normalize_wire_api_idem w (normalize_wire_api-good config.wire_api w e)))
                    (λ _. rw same e)
              | inr (inl (t, e)) ↦ absurd (let h'' : llm_error t ≡ good profile = rw e at h' in cc)
              | inr (inr (t, e)) ↦
                  absurd (let h'' : value_error t ≡ good profile = rw e at h' in cc)
            ])
    ]

-- A `ValueError` has a text with the property `P`.
abbrev pub RaisesOnly : (P : String → Type 0) {A : Type 0} → Checked A → Type 0
RaisesOnly P (good a) = Unit
RaisesOnly P (llm_error t) = Unit
RaisesOnly P (value_error t) = P t

module _ (P : String → Type 0) where
  pub bind-RaisesOnly :
      {A B : Type 0} (c : Checked A) (f : A → Checked B)
      → RaisesOnly P c
      → ((a : A) → RaisesOnly P (f a))
      → RaisesOnly P (c >>= f)
  bind-RaisesOnly (good a) f h next = next a
  bind-RaisesOnly (llm_error t) f h next = tt
  bind-RaisesOnly (value_error t) f h next = h

  normalize_wire_api-RaisesOnly : (value : String) → RaisesOnly P (normalize_wire_api value)
  unfolding normalize_wire_api
  normalize_wire_api-RaisesOnly value =
      let s = replace_char b'-' "_" (lower (strip (text_or value "chat_completions"))) in
      if_both {A = Checked String} (RaisesOnly P)
        (is_one ("chat" ∷ "chat_completion" ∷ "chat_completions" ∷ []) s) (λ _. tt)
        (λ _.
          if_both {A = Checked String} (RaisesOnly P) (is_one ("response" ∷ "responses" ∷ []) s)
            (λ _. tt) (λ _. tt))

  pub effective_wire_api-RaisesOnly :
      (config : LlmConfig) (profile : ProviderProfile)
      → RaisesOnly P (effective_wire_api config profile)
  unfolding effective_wire_api
  effective_wire_api-RaisesOnly config profile =
      if_both {A = Checked String} (RaisesOnly P) (str_eq (strip config.provider_profile) "")
        (λ _. normalize_wire_api-RaisesOnly _) (λ _. tt)

  profile_of-RaisesOnly : (given requested : String) → RaisesOnly P (profile_of given requested)
  unfolding profile_of
  profile_of-RaisesOnly given requested =
      go (get (or_else (get requested profile_aliases) requested) provider_profiles)
    where
      go :
          (o : Option ProviderProfile)
          → RaisesOnly P {A = ProviderProfile} (elim o [
            | some profile ↦ good profile
            | none ↦ llm_error (str_append "Unsupported provider profile: " given)
          ])
      go none = tt
      go (some profile) = tt

  pub resolve_provider_profile-RaisesOnly :
      (config : LlmConfig) → RaisesOnly P (resolve_provider_profile config)
  unfolding resolve_provider_profile
  resolve_provider_profile-RaisesOnly config =
      let s = replace_char b'_' "-" (lower (strip config.provider_profile)) in
      bind-RaisesOnly (requested_of config) (profile_of config.provider_profile)
        (if_both {A = Checked String} (RaisesOnly P) (str_eq s "")
          (λ _.
            bind-RaisesOnly (normalize_wire_api config.wire_api) _
              (normalize_wire_api-RaisesOnly config.wire_api) (λ w. tt))
          (λ _. tt))
        (profile_of-RaisesOnly config.provider_profile)

-- The text is what `urlparse` raises for the base of the configuration.
abbrev pub RefusesBase : (parse_error : String → Option String) → LlmConfig → String → Type 0
RefusesBase parse_error config t = parse_error (strip config.api_base) ≡ some t

pub build_url-RaisesOnly :
    (parse_error : String → Option String) (config : LlmConfig) (profile : ProviderProfile)
    → RaisesOnly (RefusesBase parse_error config) (build_url parse_error config profile)
unfolding build_url
build_url-RaisesOnly parse_error config profile =
    based (parse_error (strip config.api_base)) refl _ _ _ _
  where
    based :
        (o : Option String)
        → parse_error (strip config.api_base) ≡ o
        → (b c : Bool) (direct joined : String)
        → RaisesOnly (RefusesBase parse_error config) {A = String} (
            if b then good direct else (elim o [
              | some text ↦ value_error text
              | none ↦
                  if c
                  then good joined
                  else llm_error "Invalid API base URL. Use an absolute http(s) URL."
            ]))
    based o e true c direct joined = tt
    based none e false true direct joined = tt
    based none e false false direct joined = tt
    based (some text) e false c direct joined = e
