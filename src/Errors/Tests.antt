-- ===== src/Errors/Tests.antt =====
-- dev_orchestrator/v8/resilience.py: tests of `classify_error` and examples.
use async_native_ai_orchestr.Prelude.{ℕ, ◌≢◌, true, false, ◌≡◌, refl, some, arith}
use async_native_ai_orchestr.Text.{strip, lstrip}
use async_native_ai_orchestr.Errors.{
  http_status_error, classification, classify_error, classify_status, parse_retry_after,
  status_of_message, before_colon, first_word, skip_word,
}
use async_native_ai_orchestr.Errors.Numbers.{int, decimal, decimal_in, digits_from}

parsed : status_of_message "HTTP 503: busy" ≡ (false, 503)
unfolding status_of_message before_colon first_word skip_word int strip lstrip digits_from
parsed = refl

waits :
    classify_error (http_status_error 429 (some " 30 ") "")
    ≡ classification "rate_limited" true 30 "HTTP 429 rate-limited (retry-after=30)"
unfolding classify_error classify_status parse_retry_after int strip digits_from decimal decimal_in
waits = refl

not_429 : ◌≢◌ {A = ℕ} 401 429
not_429 = omega arith
