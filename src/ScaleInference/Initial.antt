-- ===== src/ScaleInference/Initial.antt =====
-- dev_orchestrator/v8/scale_inference.py: `infer_initial_scale`, for a configuration whose
-- `target_scale` is a text or is missing, and `merge_inference_history`.
use async_native_ai_orchestr.Prelude.{
  ℕ, ◌≤◌, String, Bool, true, false, ◌≡◌, refl, List, [], ◌∷◌, ◌++◌, Option, none, some, arith,
  str_eq, or_else, ◌||◌, if◌then◌else◌,
}
use async_native_ai_orchestr.Text.{lower, strip}
use async_native_ai_orchestr.ScaleInference.{
  Inference, normalize_scale_name, scale_from_score, scale_rank, text_score, scale_from_score_mono,
}

-- The answer of `infer_initial_scale`; its stage is always "initial". The signals hold the score.
pub record InitialScale : Type 0 where
  pub requested_scale : String
  pub selected_scale : String
  pub confidence : String
  pub auto : Bool
  pub score : Option ℕ

-- `s or t`
abbrev pub text_or : String → String → String
text_or s t = if str_eq s "" then t else s

-- `str(config.get("target_scale") or "auto").strip().lower() or "auto"`
abbrev pub requested : Option String → String
requested target = text_or (lower (strip (text_or (or_else target "") "auto"))) "auto"

unfoldable pub infer_initial_scale : Option String → String → InitialScale
infer_initial_scale target description =
    let name = requested target in
    let score = text_score description in
    if str_eq name "" || str_eq name "auto"
    then record {
      requested_scale = "auto";
      selected_scale = scale_from_score score;
      confidence = "inferred";
      auto = true;
      score = some score;
    }
    else record {
      requested_scale = name;
      selected_scale = normalize_scale_name name;
      confidence = "explicit";
      auto = false;
      score = none;
    }

unfoldable pub merge_inference_history : Option (List Inference) → Inference → List Inference
merge_inference_history history entry = or_else history [] ++ (entry ∷ [])

text_score-le : (s : String) → text_score s ≤ 9
unfolding text_score
text_score-le s = ground arith

nine : scale_rank (scale_from_score 9) ≡ 2
unfolding scale_rank scale_from_score
nine = refl

-- When the scale is inferred from the description, whatever its text is, the selected scale has at most
-- the rank 2, which is that of "large".
pub infer_initial_scale-auto :
    (target : Option String) (description : String)
    → (infer_initial_scale target description).auto ≡ true
    → scale_rank (infer_initial_scale target description).selected_scale ≤ 2
unfolding infer_initial_scale
infer_initial_scale-auto target description e =
    ground
      (arith, nine, scale_from_score_mono (text_score description) 9 (text_score-le description))
