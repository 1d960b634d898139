-- ===== src/ScaleInference/Tests.antt =====
-- dev_orchestrator/v8/scale_inference.py: tests and examples.
use async_native_ai_orchestr.Prelude.{true, none, some, ◌≡◌, refl}
use async_native_ai_orchestr.Text.{lower, strip, lstrip, rstrip, contains}
use async_native_ai_orchestr.ScaleInference.Initial.{infer_initial_scale}
use async_native_ai_orchestr.ScaleInference.{
  text_score, normalize_scale_name, scale_rank, choose_larger_scale, scale_from_score,
}

-- A name outside the order counts as "medium".
unknown_scale : normalize_scale_name "enterprise_1m" ≡ "medium"
unfolding normalize_scale_name
unknown_scale = refl

larger_one : choose_larger_scale "medium" "Large" ≡ "large"
unfolding choose_larger_scale scale_rank normalize_scale_name
larger_one = refl

inferred : (infer_initial_scale none "A production API").selected_scale ≡ "medium"
unfolding infer_initial_scale text_score lower strip lstrip rstrip contains scale_from_score
inferred = refl

is_auto : (infer_initial_scale (some " AUTO ") "A production API").auto ≡ true
unfolding infer_initial_scale text_score lower strip lstrip rstrip contains scale_from_score
is_auto = refl
