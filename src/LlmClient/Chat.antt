-- ===== src/LlmClient/Chat.antt =====
-- dev_orchestrator/llm_client.py: `chat`.
use async_native_ai_orchestr.Prelude.{
  ℕ, zero, suc, ◌+◌, ◌-◌, String, Bool, true, false, not, ◌&&◌, ◌||◌, [], ◌∷◌, List, Option, none,
  some, str_eq, str_append, ltb, or_else, ◌==◌, if◌then◌else◌,
}
use async_native_ai_orchestr.Text.{count_chars}
use async_native_ai_orchestr.Errors.{other_exception}
use async_native_ai_orchestr.Errors.Numbers.{decimal}
use async_native_ai_orchestr.Json.{
  Json, Fields, bool, num, str, arr, obj, object, items_of, field, end,
}
use async_native_ai_orchestr.Scheduler.{
  ChatOutcome, answers, raises_llm_error, raises_other, is_cancelled,
}
use async_native_ai_orchestr.LlmClient.{
  LlmConfig, ProviderProfile, Checked, good, llm_error, value_error, ◌>>=◌, ◌>>◌,
}
use async_native_ai_orchestr.LlmClient.Providers.{
  resolve_provider_profile, effective_wire_api, effective_capability, build_url,
}
use async_native_ai_orchestr.LlmClient.Content.{
  Extraction, found, refused, broken, extract_chat_completions_content, extract_responses_content,
}

-- What one attempt meets: an answer with a JSON body, an exception of httpx or of the decoder, or a
-- cancellation, which is no `Exception`.
pub data Response : Type 0 where
  body : Json → Response
  http_status : ℕ → (text : String) → Response
  connect_error : String → Response
  read_timeout : String → Response
  write_timeout : String → Response
  pool_timeout : String → Response
  not_json : Response
  unexpected : String → Response
  cancelled : Response

-- The arguments of `chat`; `timeout_text` is the time-out that is in force, as a text.
pub record ChatArgs : Type 0 where
  pub system_prompt : String
  pub messages : List Json
  pub max_tokens : Option ℕ
  pub timeout_text : String
  pub reasoning_effort : Option String
  pub temperature : Option Json
  pub retry_attempts : Option ℕ

abbrev system_message : ChatArgs → List Json
system_message q =
    obj (object (("role", str "system") ∷ ("content", str q.system_prompt) ∷ [])) ∷ q.messages

abbrev with_effort : String → Fields → Fields
with_effort effort rest =
    if str_eq effort ""
    then rest
    else field "reasoning" (obj (object (("effort", str effort) ∷ []))) rest

-- `_build_payload`
unfoldable pub build_payload :
    LlmConfig → (wire_api : String) → ChatArgs → (max_tokens : ℕ) → Fields
build_payload config wire_api q max_tokens =
    if str_eq wire_api "responses"
    then field "model" (str config.model) (
        field "input" (arr (items_of (system_message q))) (
          field "temperature" (or_else q.temperature config.temperature) (
            field "max_output_tokens" (num max_tokens) (
              with_effort (or_else q.reasoning_effort config.model_reasoning_effort) (
                if config.disable_response_storage then field "store" (bool false) end else end)))))
    else object (
        ("model", str config.model)
        ∷ ("temperature", or_else q.temperature config.temperature)
        ∷ ("max_tokens", num max_tokens)
        ∷ ("messages", arr (items_of (system_message q)))
        ∷ [])

-- The outcome of an attempt: the call ends, or its last error is kept.
pub data Try : Type 0 where
  ends : ChatOutcome → Try
  fails : (status_code : Option ℕ) (text : String) → Try

abbrev pub try_of : (broken_text : String) → Extraction → Try
try_of broken_text (found s) = ends (answers s)
try_of broken_text (refused text) = ends (raises_llm_error none text)
try_of broken_text broken = fails none (str_append "Unexpected error: " broken_text)

-- `a or b`, for numbers
abbrev num_or : ℕ → ℕ → ℕ
num_or a b = if a == 0 then b else a

-- How many attempts follow the first: `max(1, …) - 1`.
abbrev pub more_attempts : LlmConfig → ChatArgs → ℕ
more_attempts config q = or_else q.retry_attempts (num_or config.retry_attempts 1) - 1

-- `broken_text` is the text of the exception that an answer of an unexpected shape raises.
module _ (dumps : Bool → Json → String) (broken_text : String) where
  -- One attempt.
  unfoldable pub attempt : (wire_api timeout_text : String) → Response → Try
  attempt wire_api timeout_text (body v) =
      if str_eq wire_api "responses"
      then try_of broken_text (extract_responses_content dumps v)
      else try_of broken_text (extract_chat_completions_content dumps v)
  attempt wire_api timeout_text (http_status n text) =
      fails (some n) (str_append "HTTP " (str_append (decimal n) (str_append ": " text)))
  attempt wire_api timeout_text (connect_error e) = fails none (str_append "Connection error: " e)
  attempt wire_api timeout_text (read_timeout e) =
      fails none
        (str_append "Timed out after " (str_append timeout_text (str_append " seconds: " e)))
  attempt wire_api timeout_text (write_timeout e) = fails none (str_append "Write timed out: " e)
  attempt wire_api timeout_text (pool_timeout e) = fails none (str_append "Pool timeout: " e)
  attempt wire_api timeout_text not_json = fails none "Model endpoint returned non-JSON response."
  attempt wire_api timeout_text (unexpected e) = fails none (str_append "Unexpected error: " e)
  attempt wire_api timeout_text cancelled = ends is_cancelled

  -- The loop, with `left` attempts after the one of number `n`.
  unfoldable pub attempts_from :
      (wire_api timeout_text : String) → (ℕ → Response) → (left n : ℕ) → ChatOutcome
  attempts_from wire_api timeout_text responses zero n =
      elim (attempt wire_api timeout_text (responses n)) [
        | ends o ↦ o
        | fails status text ↦ raises_llm_error status text
      ]
  attempts_from wire_api timeout_text responses (suc left) n =
      elim (attempt wire_api timeout_text (responses n)) [
        | ends o ↦ o
        | fails status text ↦ attempts_from wire_api timeout_text responses left (n + 1)
      ]

  abbrev pub check : Bool → String → Checked (Unit {0})
  check true text = llm_error text
  check false text = good tt

  abbrev pub unsupported : LlmConfig → ProviderProfile → (wire_api : String) → Bool
  unsupported config profile wire_api =
      (str_eq wire_api "responses"
        && not (effective_capability config.supports_responses profile.supports_responses))
      || (str_eq wire_api "chat_completions"
          && not (
              effective_capability config.supports_chat_completions
                profile.supports_chat_completions))

  abbrev pub body_length : LlmConfig → ProviderProfile → (wire_api : String) → ChatArgs → ℕ
  body_length config profile wire_api q = count_chars (
      dumps true
        (obj (build_payload config wire_api q (num_or (or_else q.max_tokens 0) config.max_tokens))))

  -- The statements before the loop, which give the wire API. `json.dumps` writes ASCII.
  unfoldable pub prepare :
      (parse_error : String → Option String) → LlmConfig → ChatArgs → Checked String
  prepare parse_error config q = do
    check config.use_mock "Mock mode is enabled; remote chat should not be called."
    check (str_eq config.api_base "" || str_eq config.api_key "") "Missing API base or API key."
    profile ← resolve_provider_profile config
    wire_api ← effective_wire_api config profile
    check (unsupported config profile wire_api) (
        str_append "Provider profile " (
          str_append profile.id (
            if str_eq wire_api "responses"
            then " does not support the Responses wire API."
            else " does not support the Chat Completions wire API.")))
    url ← build_url parse_error config profile
    check
        (ltb 0 config.max_request_body_bytes
          && ltb config.max_request_body_bytes (body_length config profile wire_api q))
        (str_append "Request body too large: " (
          str_append (decimal (body_length config profile wire_api q)) (
            str_append " bytes exceeds configured limit "
              (str_append (decimal config.max_request_body_bytes) " bytes."))))
    good wire_api

  -- `chat`, by what each attempt meets
  unfoldable pub chat :
      (parse_error : String → Option String) → LlmConfig → ChatArgs → (ℕ → Response) → ChatOutcome
  chat parse_error config q responses = elim (prepare parse_error config q) [
    | good wire_api ↦ attempts_from wire_api q.timeout_text responses (more_attempts config q) 0
    | llm_error text ↦ raises_llm_error none text
    | value_error text ↦ raises_other (other_exception "ValueError" text)
  ]
