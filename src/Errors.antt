-- ===== src/Errors.antt =====
-- dev_orchestrator/v8/resilience.py: `classify_error`. The exceptions of httpx and of
-- dev_orchestrator/llm_client.py are given by what the function reads of them.
pub mod Numbers
pub mod Retryable
mod Tests
use Prim.Native.Char.{code}
use Prim.Native.String.{◌∷◌ as cons_char}
use async_native_ai_orchestr.Prelude.{
  ℕ, String, Bool, true, false, ◌||◌, List, [], ◌∷◌, Option, none, some, leb, ◌==◌, str_eq,
  str_append, any, or_else, if◌then◌else◌,
}
use async_native_ai_orchestr.Text.{take_chars, lower, lstrip, has_prefix, contains, is_space}
use async_native_ai_orchestr.Breaker.{ErrorClassification}
use Numbers.{int, decimal}

pub data Raised : Type 0 where
  -- `httpx.HTTPStatusError`: the status, the header `Retry-After` and the text of the response.
  http_status_error : (status : ℕ) (retry_after : Option String) (text : String) → Raised
  connect_error : (text : String) → Raised
  read_error : (text : String) → Raised
  write_error : (text : String) → Raised
  remote_protocol_error : (text : String) → Raised
  -- `httpx.TimeoutException` and its subclasses
  timeout_exception : (text : String) → Raised
  llm_error : (status_code : Option ℕ) (text : String) → Raised
  -- Any other exception: the name of its type and its text.
  other_exception : (name text : String) → Raised

abbrev pub classification : String → Bool → ℕ → String → ErrorClassification
classification kind retryable backoff reason = record {
  error_kind = kind;
  retryable = retryable;
  backoff_seconds = backoff;
  reason = reason;
}

-- `_CONTEXT_LENGTH_TOKENS`
abbrev pub context_length_tokens : List String
context_length_tokens = "context_length_exceeded" ∷ "maximum context length" ∷ "context window" ∷ []

-- `max(0, n)`, and 0 for the `ValueError`
abbrev pub at_least_zero : Option (Bool × ℕ) → ℕ
at_least_zero none = 0
at_least_zero (some (negative, n)) = if negative then 0 else n

-- `_parse_retry_after`
unfoldable pub parse_retry_after : Option String → ℕ
parse_retry_after none = 0
parse_retry_after (some raw) = at_least_zero (int raw)

abbrev pub is_server_error : ℕ → Bool
is_server_error status =
    (status == 500) || ((status == 502) || ((status == 503) || (status == 504)))

abbrev pub is_auth_error : ℕ → Bool
is_auth_error status = (status == 401) || (status == 403)

abbrev http : ℕ → String → String
http status text = str_append "HTTP " (str_append (decimal status) text)

abbrev rate_reason : ℕ → String
rate_reason n = str_append "HTTP 429 rate-limited (retry-after=" (str_append (decimal n) ")")

-- The branch of `httpx.HTTPStatusError`.
unfoldable pub classify_status : ℕ → Option String → String → ErrorClassification
classify_status status header text =
    let retry_after = parse_retry_after header in
    let is_context = any (contains (lower text)) context_length_tokens in
    if status == 429
    then classification "rate_limited" true (if retry_after == 0 then 12 else retry_after)
        (rate_reason retry_after)
    else (if is_server_error status
        then classification "server_error" true 6 (http status " server error")
        else (if is_auth_error status
            then classification "auth_error" false 0
                (http status " authentication/authorization failure")
            else (if status == 400
                then classification (if is_context then "payload_oversize" else "bad_request") false
                    0 (if is_context then "context length exceeded" else "HTTP 400 bad request")
                else (if status == 404
                    then classification "not_found" false 0 "HTTP 404 not found"
                    else (if status == 413
                        then classification "payload_oversize" false 0 "HTTP 413 payload too large"
                        else classification "http_error" (leb 500 status)
                            (if leb 500 status then 4 else 0) (http status ""))))))

-- `s.split(":")[0]`
unfoldable pub before_colon : String → String
before_colon String.[] = ""
before_colon (cons_char c s) =
    let rest = before_colon s in if code c == b':' then "" else cons_char c rest

-- The text from the first white space on, and up to it.
unfoldable pub skip_word : String → String
skip_word String.[] = ""
skip_word (cons_char c s) =
    let rest = skip_word s in if is_space (code c) then cons_char c s else rest

unfoldable pub first_word : String → String
first_word String.[] = ""
first_word (cons_char c s) =
    let rest = first_word s in if is_space (code c) then "" else cons_char c rest

-- `int(msg.split(":")[0].split()[1])`, and 0 for an `IndexError` or a `ValueError`. A missing second
-- word is the empty text, which is no integer.
unfoldable pub status_of_message : String → Bool × ℕ
status_of_message msg =
    or_else (int (first_word (lstrip (skip_word (lstrip (before_colon msg)))))) (false, 0)

-- `status` in the branch of `LLMError`: a status of 0 counts as none.
unfoldable pub llm_status : Option ℕ → String → Bool × ℕ
llm_status given msg =
    let known = or_else given 0 in
    let parsed = if has_prefix msg "HTTP " then status_of_message msg else (false, 0) in
    if known == 0 then parsed else (false, known)

-- A status that is not 0. A negative one equals no listed status and is below 500.
unfoldable pub classify_llm_status : Bool × ℕ → String → ErrorClassification
classify_llm_status (true, n) reason = classification "http_error" false 0 reason
classify_llm_status (false, status) reason =
    if status == 429
    then classification "rate_limited" true 12 reason
    else (if is_server_error status
        then classification "server_error" true 6 reason
        else (if is_auth_error status
            then classification "auth_error" false 0 reason
            else (if leb 500 status
                then classification "server_error" true 4 reason
                else classification "http_error" false 0 reason)))

abbrev pub unknown : (name text : String) → ErrorClassification
unknown name text = classification "unknown" false 0 (str_append name (str_append ": " text))

-- The branch of `LLMError`.
unfoldable pub classify_llm : Option ℕ → String → ErrorClassification
classify_llm status_code msg =
    let (negative, status) = llm_status status_code msg in
    let reason = take_chars 200 msg in
    if status == 0
    then (if contains msg "Timed out" || contains (lower msg) "timeout"
        then classification "timeout" true 8 reason
        else (if contains msg "Connection error"
              || (contains (lower msg) "disconnected" || contains (lower msg) "server")
            then classification "connection_error" true 4 reason
            else unknown "LLMError" msg))
    else classify_llm_status (negative, status) reason

abbrev connection_error : (name text : String) → ErrorClassification
connection_error name text =
    classification "connection_error" true 4 (str_append name (str_append ": " text))

unfoldable pub classify_error : Raised → ErrorClassification
classify_error (http_status_error status retry_after text) = classify_status status retry_after text
classify_error (connect_error text) = connection_error "ConnectError" text
classify_error (read_error text) = connection_error "ReadError" text
classify_error (write_error text) = connection_error "WriteError" text
classify_error (remote_protocol_error text) = connection_error "RemoteProtocolError" text
classify_error (timeout_exception text) =
    classification "timeout" true 8 (str_append "Timeout: " text)
classify_error (llm_error status_code text) = classify_llm status_code text
classify_error (other_exception name text) = unknown name text
