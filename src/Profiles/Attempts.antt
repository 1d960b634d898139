-- ===== src/Profiles/Attempts.antt =====
-- dev_orchestrator/v8/profiles.py: the names of the profiles, and how many attempts a job is given.
use async_native_ai_orchestr.Prelude.{
  ℕ, ◌<◌, ◌≡◌, String, [], ◌∷◌, Option, none, some, if◌then◌else◌, str_eq, arith, ◌==◌, is_some,
}
use async_native_ai_orchestr.Prelude.Dict.{Dict, get}
use async_native_ai_orchestr.Result.{Result, ok, err, value_error, ◌>>=◌, ◌>>◌}
use async_native_ai_orchestr.Text.{lower, strip}
use async_native_ai_orchestr.Profiles.{ScaleProfileData, default_job_attempts}
use async_native_ai_orchestr.Profiles.Table.{scale_profile}

abbrev pub scale_aliases : Dict String
scale_aliases =
    ("", "medium")
    ∷ ("auto", "medium")
    ∷ ("adaptive", "medium")
    ∷ ("tiny", "small")
    ∷ ("small", "small")
    ∷ ("s", "small")
    ∷ ("medium", "medium")
    ∷ ("m", "medium")
    ∷ ("large", "large")
    ∷ ("l", "large")
    ∷ ("xlarge", "xlarge_100k")
    ∷ ("xl", "xlarge_100k")
    ∷ ("100k", "xlarge_100k")
    ∷ ("xlarge_100k", "xlarge_100k")
    ∷ ("xxlarge", "xxlarge_300k")
    ∷ ("xxl", "xxlarge_300k")
    ∷ ("300k", "xxlarge_300k")
    ∷ ("enterprise", "enterprise_1m")
    ∷ ("1m", "enterprise_1m")
    ∷ []

-- `_resolve_profile_name`, with the default "medium".
unfoldable pub resolve_profile_name : String → Result String
unfolding scale_profile get lower strip
resolve_profile_name raw =
    let normalized = lower (strip raw) in
    if str_eq normalized ""
    then ok "medium"
    else (if is_some (scale_profile normalized)
        then ok normalized
        else (elim (get normalized scale_aliases) [
          | some name ↦ ok name
          | none ↦ err (value_error raw)
        ]))

-- `ScaleProfileData(**resolve_scale_profile({"target_scale": raw}))`: no key of the argument is a field
-- of the profile, so the table's entry is the answer.
unfoldable pub resolve_target_scale : String → Result ScaleProfileData
unfolding resolve_profile_name scale_profile
resolve_target_scale raw = do
  name ← resolve_profile_name raw
  elim (scale_profile name) [ some p ↦ ok p | none ↦ err (value_error raw) ]

-- `d.get(k) or e`, for a number
abbrev nonzero_or : Option ℕ → ℕ → ℕ
nonzero_or none e = e
nonzero_or (some n) e = if n == 0 then e else n

-- `scale_job_attempts(task_kind, profile.model_dump())`: the profile's own table of attempts replaces
-- that of the profile of its name, and an unknown name raises.
unfoldable pub scale_job_attempts : String → ScaleProfileData → Result ℕ
scale_job_attempts task_kind p = do
  resolve_profile_name p.name
  ok (nonzero_or (get task_kind p.job_attempts) (nonzero_or (get task_kind default_job_attempts) 3))

-- A job is never given zero attempts, whatever the task and the profile.
pub scale_job_attempts-pos :
    (task_kind : String) (p : ScaleProfileData) (n : ℕ)
    → scale_job_attempts task_kind p ≡ ok n
    → 0 < n
unfolding scale_job_attempts
scale_job_attempts-pos task_kind p n h = ground arith
