-- ===== src/LlmClient/Attempts.antt =====
-- dev_orchestrator/llm_client.py: what `chat` makes of its attempts.
use async_native_ai_orchestr.Prelude.{
  ℕ, zero, suc, ◌+◌, ◌≡◌, ◌≢◌, ◌⊎◌, inl, inr, refl, String, Bool, true, false, ◌==◌, Option, none,
  str_eq, eq_iff, if_both, ◌||◌, ◌&&◌, ltb,
}
use async_native_ai_orchestr.Text.{strip}
use async_native_ai_orchestr.Json.{
  Json, Fields, null, bool, num, str, arr, obj, nil, cons, get_field, truthy,
}
use async_native_ai_orchestr.Scheduler.{
  ChatOutcome, answers, raises_llm_error, raises_other, is_cancelled,
}
use async_native_ai_orchestr.Errors.{Raised, other_exception}
use async_native_ai_orchestr.LlmClient.{LlmConfig, Checked, good, llm_error, value_error, ◌>>=◌}
use async_native_ai_orchestr.LlmClient.Providers.{
  resolve_provider_profile, effective_wire_api, build_url, RefusesBase, RaisesOnly, bind-RaisesOnly,
  effective_wire_api-RaisesOnly, resolve_provider_profile-RaisesOnly, build_url-RaisesOnly,
}
use async_native_ai_orchestr.LlmClient.Content.{
  Extraction, found, refused, broken, usable, no_text, no_choices, combined, direct_or,
  text_of_message, message_text, first_choice, extract_chat_completions_content,
  extract_responses_content,
}
use async_native_ai_orchestr.LlmClient.Chat.{
  Response, body, http_status, connect_error, read_timeout, write_timeout, pool_timeout, not_json,
  unexpected, cancelled, check, unsupported, body_length, Try, ends, fails, try_of, ChatArgs,
  attempt, attempts_from, prepare, more_attempts, chat,
}

-- The attempt of number `n + k` decides: those from `n` to it failed, and it ends the call or is the last.
pub data Decides (tries : ℕ → Try) : (left n : ℕ) → ChatOutcome → Type 0 where
  ended : {left n : ℕ} {o : ChatOutcome} → tries n ≡ ends o → Decides tries left n o
  gave_up :
      {left n : ℕ} {o : ChatOutcome} (status : Option ℕ) (text : String)
      → left ≡ 0
      → tries n ≡ fails status text
      → o ≡ raises_llm_error status text
      → Decides tries left n o
  went_on :
      {left more n : ℕ} {o : ChatOutcome} (status : Option ℕ) (text : String)
      → more ≡ suc left
      → tries n ≡ fails status text
      → Decides tries left (n + 1) o
      → Decides tries more n o

-- A text that is not empty or an `LLMError`; or another exception or a cancellation, each for its reason.
abbrev pub IsSound : (Raises : Raised → Type 0) (Interrupted : Type 0) → ChatOutcome → Type 0
IsSound Raises Interrupted (answers s) = s ≢ ""
IsSound Raises Interrupted (raises_llm_error status text) = Unit
IsSound Raises Interrupted (raises_other r) = Raises r
IsSound Raises Interrupted is_cancelled = Interrupted

-- The `ValueError` of `urlparse` for the base of the configuration.
abbrev pub IsParseError : (parse_error : String → Option String) → LlmConfig → Raised → Type 0
IsParseError parse_error config r =
    (text : String) × RefusesBase parse_error config text × (r ≡ other_exception "ValueError" text)

-- An attempt was cancelled.
abbrev pub WasCancelled : (ℕ → Response) → Type 0
WasCancelled responses = (n : ℕ) × (responses n ≡ cancelled)

abbrev IsUsable : Extraction → Type 0
IsUsable (found s) = s ≢ ""
IsUsable (refused text) = Unit
IsUsable broken = Unit

abbrev EndsSoundly : (Raises : Raised → Type 0) (Interrupted : Type 0) → Try → Type 0
EndsSoundly Raises Interrupted (ends o) = IsSound Raises Interrupted o
EndsSoundly Raises Interrupted (fails status text) = Unit

Try-cases :
    (t : Try)
    → ((o : ChatOutcome) × (t ≡ ends o))
      ⊎ ((status : Option ℕ) × (text : String) × (t ≡ fails status text))
Try-cases (ends o) = inl (o, refl)
Try-cases (fails status text) = inr (status, text, refl)

ne_of_str_eq : (s : String) → str_eq s "" ≡ false → s ≢ ""
ne_of_str_eq s h e = cc (h, (eq_iff s "").1 e)

module _ (dumps : Bool → Json → String) (broken_text : String) where
  usable-IsUsable :
      (problem : String) (payload : Fields) (s : String) → IsUsable (usable dumps problem payload s)
  usable-IsUsable problem payload s =
      if_both {A = Extraction} IsUsable (str_eq s "") (λ _. tt) (λ h. ne_of_str_eq s h)

  text_of_message-IsUsable :
      (payload : Fields) (v : Json) → IsUsable (text_of_message dumps payload v)
  text_of_message-IsUsable payload (obj message) = usable-IsUsable _ payload _
  text_of_message-IsUsable payload null = tt
  text_of_message-IsUsable payload (bool b) = tt
  text_of_message-IsUsable payload (num n) = tt
  text_of_message-IsUsable payload (str s) = tt
  text_of_message-IsUsable payload (arr xs) = tt

  message_text-IsUsable : (payload : Fields) (v : Json) → IsUsable (message_text dumps payload v)
  message_text-IsUsable payload (obj choice) = text_of_message-IsUsable payload _
  message_text-IsUsable payload null = tt
  message_text-IsUsable payload (bool b) = tt
  message_text-IsUsable payload (num n) = tt
  message_text-IsUsable payload (str s) = tt
  message_text-IsUsable payload (arr xs) = tt

  first_choice-IsUsable : (payload : Fields) (v : Json) → IsUsable (first_choice dumps payload v)
  first_choice-IsUsable payload (arr (cons v rest)) = message_text-IsUsable payload v
  first_choice-IsUsable payload (arr nil) = tt
  first_choice-IsUsable payload null = tt
  first_choice-IsUsable payload (bool b) = tt
  first_choice-IsUsable payload (num n) = tt
  first_choice-IsUsable payload (str s) = tt
  first_choice-IsUsable payload (obj fs) = tt

  combined-IsUsable : (payload : Fields) (v : Json) → IsUsable (combined dumps payload v)
  combined-IsUsable payload (arr xs) = usable-IsUsable no_text payload _
  combined-IsUsable payload (num n) =
      if_both {A = Extraction} IsUsable (n == 0) (λ _. usable-IsUsable no_text payload "") (λ _. tt)
  combined-IsUsable payload (bool true) = tt
  combined-IsUsable payload (bool false) = usable-IsUsable no_text payload ""
  combined-IsUsable payload null = usable-IsUsable no_text payload ""
  combined-IsUsable payload (str s) = usable-IsUsable no_text payload ""
  combined-IsUsable payload (obj fs) = usable-IsUsable no_text payload ""

  direct_or-IsUsable : (payload : Fields) (v : Json) → IsUsable (direct_or dumps payload v)
  direct_or-IsUsable payload (str t) =
      if_both {A = Extraction} IsUsable (str_eq (strip t) "")
        (λ _. combined-IsUsable payload (get_field "output" payload))
        (λ h. ne_of_str_eq (strip t) h)
  direct_or-IsUsable payload null = combined-IsUsable payload (get_field "output" payload)
  direct_or-IsUsable payload (bool b) = combined-IsUsable payload (get_field "output" payload)
  direct_or-IsUsable payload (num n) = combined-IsUsable payload (get_field "output" payload)
  direct_or-IsUsable payload (arr xs) = combined-IsUsable payload (get_field "output" payload)
  direct_or-IsUsable payload (obj fs) = combined-IsUsable payload (get_field "output" payload)

  responses-IsUsable : (v : Json) → IsUsable (extract_responses_content dumps v)
  unfolding extract_responses_content
  responses-IsUsable (obj payload) = direct_or-IsUsable payload (get_field "output_text" payload)
  responses-IsUsable null = tt
  responses-IsUsable (bool b) = tt
  responses-IsUsable (num n) = tt
  responses-IsUsable (str s) = tt
  responses-IsUsable (arr xs) = tt

  completions-IsUsable : (v : Json) → IsUsable (extract_chat_completions_content dumps v)
  unfolding extract_chat_completions_content
  completions-IsUsable (obj payload) =
      if_both {A = Extraction} IsUsable (truthy (get_field "choices" payload))
        (λ _. first_choice-IsUsable payload (get_field "choices" payload))
        (λ _. usable-IsUsable no_choices payload "")
  completions-IsUsable null = tt
  completions-IsUsable (bool b) = tt
  completions-IsUsable (num n) = tt
  completions-IsUsable (str s) = tt
  completions-IsUsable (arr xs) = tt

  module _ (Raises : Raised → Type 0) (w t : String) (responses : ℕ → Response) where
    abbrev Sound : ChatOutcome → Type 0
    Sound = IsSound Raises (WasCancelled responses)

    abbrev SoundTry : Try → Type 0
    SoundTry = EndsSoundly Raises (WasCancelled responses)

    try_of-EndsSoundly : (e : Extraction) → IsUsable e → SoundTry (try_of broken_text e)
    try_of-EndsSoundly (found s) h = h
    try_of-EndsSoundly (refused text) h = tt
    try_of-EndsSoundly broken h = tt

    attempt-EndsSoundly :
        (n : ℕ) (r : Response) → responses n ≡ r → SoundTry (attempt dumps broken_text w t r)
    unfolding attempt
    attempt-EndsSoundly n (body v) e =
        if_both {A = Try} SoundTry (str_eq w "responses")
          (λ _. try_of-EndsSoundly (extract_responses_content dumps v) (responses-IsUsable v))
          (λ _.
            try_of-EndsSoundly (extract_chat_completions_content dumps v) (completions-IsUsable v))
    attempt-EndsSoundly n (http_status code text) e = tt
    attempt-EndsSoundly n (connect_error x) e = tt
    attempt-EndsSoundly n (read_timeout x) e = tt
    attempt-EndsSoundly n (write_timeout x) e = tt
    attempt-EndsSoundly n (pool_timeout x) e = tt
    attempt-EndsSoundly n not_json e = tt
    attempt-EndsSoundly n (unexpected x) e = tt
    attempt-EndsSoundly n cancelled e = (n, e)

    attempts_from-IsSound :
        (left n : ℕ) → Sound (attempts_from dumps broken_text w t responses left n)
    unfolding attempts_from
    attempts_from-IsSound zero n =
        last (attempt dumps broken_text w t (responses n))
          (attempt-EndsSoundly n (responses n) refl)
      where
        last :
            (r : Try)
            → SoundTry r
            → Sound (elim r [ ends o ↦ o | fails status text ↦ raises_llm_error status text ])
        last (ends o) h = h
        last (fails status text) h = tt
    attempts_from-IsSound (suc left) n =
        next (attempt dumps broken_text w t (responses n))
          (attempt-EndsSoundly n (responses n) refl) (attempts_from-IsSound left (n + 1))
      where
        next :
            (r : Try)
            → SoundTry r
            → Sound (attempts_from dumps broken_text w t responses left (n + 1))
            → Sound (elim r [
              | ends o ↦ o
              | fails status text ↦ attempts_from dumps broken_text w t responses left (n + 1)
            ])
        next (ends o) h ih = h
        next (fails status text) h ih = ih

  module _ (w t : String) (responses : ℕ → Response) where
    attempts_from-Decides :
        (left n : ℕ)
        → Decides
            (λ k. attempt dumps broken_text w t (responses k))
            left
            n
            (attempts_from dumps broken_text w t responses left n)
    unfolding attempts_from
    attempts_from-Decides zero n = elim (Try-cases (attempt dumps broken_text w t (responses n))) [
      | inl (o, e) ↦ ended (rw (e, attempts_from))
      | inr (status, text, e) ↦ gave_up status text refl e (rw (e, attempts_from))
    ]
    attempts_from-Decides (suc left) n =
        elim (Try-cases (attempt dumps broken_text w t (responses n))) [
          | inl (o, e) ↦ ended (rw (e, attempts_from))
          | inr (status, text, e) ↦
              went_on status text refl e
                (rw (e, attempts_from) (attempts_from-Decides left (n + 1)))
        ]

module _ (dumps : Bool → Json → String) (broken_text : String)
    (parse_error : String → Option String) (config : LlmConfig) (q : ChatArgs)
    (responses : ℕ → Response) where
  abbrev Fits : String → Type 0
  Fits = RefusesBase parse_error config

  checked :
      (b : Bool) (text : String) (next : Unit {0} → Checked String)
      → ((u : Unit {0}) → RaisesOnly Fits (next u))
      → RaisesOnly Fits (check dumps broken_text b text >>= next)
  checked true text next h = tt
  checked false text next h = h tt

  prepare-RaisesOnly :
      RaisesOnly (RefusesBase parse_error config) (prepare dumps broken_text parse_error config q)
  unfolding prepare
  prepare-RaisesOnly = checked config.use_mock _ _ (λ _.
      checked (str_eq config.api_base "" || str_eq config.api_key "") _ _ (λ _.
        bind-RaisesOnly Fits (resolve_provider_profile config) _
          (resolve_provider_profile-RaisesOnly Fits config)
          (λ profile.
            bind-RaisesOnly Fits (effective_wire_api config profile) _
              (effective_wire_api-RaisesOnly Fits config profile)
              (λ wire_api. checked (unsupported dumps broken_text config profile wire_api) _ _ (λ _.
                bind-RaisesOnly Fits (build_url parse_error config profile) _
                  (build_url-RaisesOnly parse_error config profile)
                  (λ url.
                    checked
                      (ltb 0 config.max_request_body_bytes
                        && ltb config.max_request_body_bytes
                            (body_length dumps broken_text config profile wire_api q))
                      _ _ (λ _. tt)))))))

  -- `chat` answers with a text that is not empty or raises `LLMError`, whatever the configuration, the
  -- arguments and the server's answers are, but for two cases: the `ValueError` that `urlparse` raises
  -- for the base of the URL leaves it, and so does the cancellation of an attempt.
  pub chat-IsSound :
      IsSound
        (IsParseError parse_error config)
        (WasCancelled responses)
        (chat dumps broken_text parse_error config q responses)
  unfolding chat
  chat-IsSound = go (prepare dumps broken_text parse_error config q) prepare-RaisesOnly
    where
      go :
          (c : Checked String)
          → RaisesOnly (RefusesBase parse_error config) c
          → IsSound (IsParseError parse_error config) (WasCancelled responses) (elim c [
            | good w ↦
                attempts_from dumps broken_text w q.timeout_text responses
                  (more_attempts config q)
                  0
            | llm_error text ↦ raises_llm_error none text
            | value_error text ↦ raises_other (other_exception "ValueError" text)
          ])
      go (good w) h =
          attempts_from-IsSound dumps broken_text (IsParseError parse_error config) w q.timeout_text
            responses _ 0
      go (llm_error text) h = tt
      go (value_error text) h = (text, h, refl)

  -- When the statements before the loop refuse nothing and give a wire API, `chat` decides by its attempts
  -- in their order: it goes on only after an attempt that failed, makes at most the number of attempts
  -- that was asked for and at least one, and its answer or error is that of the last one made.
  pub chat-Decides :
      (w : String)
      → prepare dumps broken_text parse_error config q ≡ good w
      → Decides
          (λ k. attempt dumps broken_text w q.timeout_text (responses k))
          (more_attempts config q)
          0
          (chat dumps broken_text parse_error config q responses)
  unfolding chat
  chat-Decides w e =
      rw (e, chat)
        (attempts_from-Decides dumps broken_text w q.timeout_text responses (more_attempts config q)
          0)
