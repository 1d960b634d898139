-- ===== src/LlmClient.antt =====
-- dev_orchestrator/llm_client.py: `AsyncLLMClient.chat`, with the provider profiles. The configuration holds the
-- fields of `LLMConfig` that are read. What the server answers to each attempt, `json.dumps`, the temperature, the
-- text of an unexpected exception and the texts that `urlparse` refuses are parameters.
pub mod Providers
pub mod Content
pub mod Chat
pub mod Attempts
mod Tests
use async_native_ai_orchestr.Prelude.{ℕ, String, Bool, Option}
use async_native_ai_orchestr.Json.{Json}

pub record LlmConfig : Type 0 where
  pub use_mock : Bool
  pub api_base : String
  pub api_key : String
  pub api_path : String
  pub model : String
  pub temperature : Json
  pub model_reasoning_effort : String
  pub disable_response_storage : Bool
  pub provider_profile : String
  pub wire_api : String
  pub supports_responses : Option Bool
  pub supports_chat_completions : Option Bool
  pub max_tokens : ℕ
  pub max_request_body_bytes : ℕ
  pub retry_attempts : ℕ

-- The fields of `ProviderProfile` that are read.
pub record ProviderProfile : Type 0 where
  pub id : String
  pub default_wire_api : String
  pub default_api_path : String
  pub supports_responses : Bool
  pub supports_chat_completions : Bool

-- A value, an `LLMError` without a status code, or a `ValueError`.
pub data Checked (A : Type 0) : Type 0 where
  good : A → Checked A
  llm_error : String → Checked A
  value_error : String → Checked A

module _ {A B : Type 0} where
  infixl 5 ◌>>=◌ ◌>>◌
  abbrev pub ◌>>=◌ : Checked A → (A → Checked B) → Checked B
  good a >>= f = f a
  llm_error text >>= f = llm_error text
  value_error text >>= f = value_error text

  abbrev pub ◌>>◌ : Checked A → Checked B → Checked B
  m >> n = m >>= λ _. n
