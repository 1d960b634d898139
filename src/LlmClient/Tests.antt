-- ===== src/LlmClient/Tests.antt =====
-- Runs of the client, and its theorems at concrete data.
use async_native_ai_orchestr.Prelude.{
  ℕ, String, Option, ◌≡◌, refl, true, false, [], ◌∷◌, none, some, if◌then◌else◌, ◌==◌,
}
use async_native_ai_orchestr.Prelude.Dict.{get}
use async_native_ai_orchestr.Text.{lower, strip, lstrip, rstrip, replace_char, rstrip_char}
use async_native_ai_orchestr.Errors.Numbers.{decimal, decimal_in}
use async_native_ai_orchestr.Json.{Json, null, str, arr, obj, object, items_of}
use async_native_ai_orchestr.Scheduler.{ChatOutcome, answers, raises_llm_error}
use async_native_ai_orchestr.LlmClient.{LlmConfig, good}
use async_native_ai_orchestr.LlmClient.Providers.{
  provider_profiles, profile_aliases, normalize_wire_api, profile_of, resolve_provider_profile,
  effective_wire_api, build_url, resolve_provider_profile-effective_wire_api,
}
use async_native_ai_orchestr.LlmClient.Content.{
  extract_message_content, extract_chat_completions_content,
}
use async_native_ai_orchestr.LlmClient.Chat.{
  Response, body, http_status, ChatArgs, build_payload, attempt, attempts_from, prepare, chat,
}
use async_native_ai_orchestr.LlmClient.Attempts.{
  Decides, IsSound, IsParseError, WasCancelled, chat-IsSound, chat-Decides,
}

-- No profile is named, and the wire API is spelled with a dash.
abbrev config : LlmConfig
config = record {
  use_mock = false;
  api_base = "https://api.example.com/v1/";
  api_key = "k";
  api_path = "";
  model = "m";
  temperature = null;
  model_reasoning_effort = "";
  disable_response_storage = false;
  provider_profile = " ";
  wire_api = "Chat-Completions";
  supports_responses = none;
  supports_chat_completions = none;
  max_tokens = 100;
  max_request_body_bytes = 0;
  retry_attempts = 0;
}

abbrev args : ChatArgs
args = record {
  system_prompt = "s";
  messages = [];
  max_tokens = none;
  timeout_text = "30";
  reasoning_effort = none;
  temperature = none;
  retry_attempts = some 3;
}

abbrev answer : Json
answer = obj (
    object (
      (
        "choices",
        arr (
            items_of (
              obj (object (("message", obj (object (("content", str " hi \n") ∷ []))) ∷ [])) ∷ [])),
      )
      ∷ []))

-- The server is busy once, and then answers.
abbrev responses : ℕ → Response
responses n = if n == 0 then http_status 503 "busy" else body answer

-- `urlparse` takes every text.
abbrev parses : String → Option String
parses s = none

run : (ℕ → Response) → ChatOutcome
unfolding chat prepare resolve_provider_profile profile_of provider_profiles profile_aliases
    normalize_wire_api effective_wire_api build_url build_payload attempts_from attempt
    extract_chat_completions_content extract_message_content lower strip lstrip rstrip replace_char
    rstrip_char get decimal decimal_in
run = chat (λ ascii v. "{}") "" parses config args

run_answers : run responses ≡ answers "hi"
unfolding run
run_answers = refl

run_fails : run (λ n. http_status 503 "busy") ≡ raises_llm_error (some 503) "HTTP 503: busy"
unfolding run
run_fails = refl

resolve_provider_profile-effective_wire_api_example :
    effective_wire_api config (record {
      id = "openai-chat-completions";
      default_wire_api = "chat_completions";
      default_api_path = "/chat/completions";
      supports_responses = false;
      supports_chat_completions = true;
    })
    ≡ good "chat_completions"
unfolding resolve_provider_profile profile_of provider_profiles profile_aliases normalize_wire_api
    lower strip lstrip rstrip replace_char get
resolve_provider_profile-effective_wire_api_example =
    resolve_provider_profile-effective_wire_api config _ refl

chat-IsSound_example :
    IsSound
      (IsParseError parses config)
      (WasCancelled responses)
      (chat (λ ascii v. "{}") "" parses config args responses)
chat-IsSound_example = chat-IsSound (λ ascii v. "{}") "" parses config args responses

chat-Decides_example :
    Decides
      (λ k. attempt (λ ascii v. "{}") "" "chat_completions" "30" (responses k))
      2
      0
      (chat (λ ascii v. "{}") "" parses config args responses)
unfolding prepare resolve_provider_profile profile_of provider_profiles profile_aliases
    normalize_wire_api effective_wire_api build_url build_payload lower strip lstrip rstrip
    replace_char rstrip_char get
chat-Decides_example =
    chat-Decides (λ ascii v. "{}") "" parses config args responses "chat_completions" refl
