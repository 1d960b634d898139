-- ===== src/ScaleInference.antt =====
-- dev_orchestrator/v8/scale_inference.py: the scale that a project's outputs call for.
pub mod Initial
mod Tests
use async_native_ai_orchestr.Prelude.{
  ◌⊎◌, ℕ, zero, suc, ◌+◌, ◌-◌, ◌*◌, ◌≤◌, ◌≡◌, refl, String, Bool, true, false, List, [], ◌∷◌,
  if◌then◌else◌, arith, ltb, leb, is_some, or_else, any, max,
}
use async_native_ai_orchestr.Prelude.Dict.{Dict, get}
use async_native_ai_orchestr.Text.{lower, strip, contains, count_chars}
use async_native_ai_orchestr.Json.{
  Json, Items, Fields, null, bool, num, str, arr, obj, nil, cons, end, field, get_field,
}
use async_native_ai_orchestr.Result.{Result, ok, err, type_error, other_error, ◌>>=◌}

abbrev pub scale_order : Dict ℕ
scale_order = ("small", 0) ∷ ("medium", 1) ∷ ("large", 2) ∷ ("xlarge_100k", 3) ∷ []

abbrev pub scale_aliases : Dict String
scale_aliases =
    ("", "medium")
    ∷ ("auto", "medium")
    ∷ ("tiny", "small")
    ∷ ("s", "small")
    ∷ ("m", "medium")
    ∷ ("l", "large")
    ∷ ("xlarge", "xlarge_100k")
    ∷ ("xl", "xlarge_100k")
    ∷ ("100k", "xlarge_100k")
    ∷ []

-- `normalize_scale_name`, after `str(value or "").strip().lower()`.
unfoldable pub known_scale : String → String
unfolding get
known_scale name =
    let alias = or_else (get name scale_aliases) name in
    if is_some (get alias scale_order) then alias else "medium"

unfoldable pub normalize_scale_name : String → String
unfolding known_scale lower strip
normalize_scale_name value = known_scale (lower (strip value))

-- `SCALE_ORDER.get(name, 0)`
unfoldable pub scale_rank : String → ℕ
unfolding get
scale_rank name = or_else (get name scale_order) 0

-- The test of `choose_larger_scale` on the two normalized names.
pub larger : String → String → String
larger c d = if ltb (scale_rank c) (scale_rank d) then d else c

unfoldable pub choose_larger_scale : String → String → String
unfolding larger
choose_larger_scale current candidate =
    larger (normalize_scale_name current) (normalize_scale_name candidate)

-- `_scale_from_score`
unfoldable pub scale_from_score : ℕ → String
scale_from_score score =
    if leb 12 score
    then "xlarge_100k"
    else (if leb 7 score then "large" else (if leb 3 score then "medium" else "small"))

abbrev mentions : String → List String → Bool
mentions text words = any (λ w. contains text w) words

-- `_text_signals(text)["score"]`: points are added before two are taken off, and `max(0, score)` is
-- what the subtraction of natural numbers leaves.
unfoldable pub text_score : String → ℕ
unfolding lower contains
text_score text =
    let low = lower text in
    let a : ℕ =
      if mentions low ("enterprise" ∷ "production" ∷ "scale" ∷ "distributed" ∷ []) then 4 else 0 in
    let b : ℕ =
      if mentions low ("microservice" ∷ "kubernetes" ∷ "k8s" ∷ "cluster" ∷ []) then 3 else 0 in
    let c : ℕ =
      if mentions low ("api" ∷ "database" ∷ "auth" ∷ "authentication" ∷ []) then 2 else 0 in
    let d : ℕ =
      if mentions low ("simple" ∷ "prototype" ∷ "demo" ∷ "toy" ∷ "hello world" ∷ [])
      then 2
      else 0 in
    a + b + c - d

-- What an inference reports: the stage, the scale and the two counts it rests on.
pub record Inference : Type 0 where
  pub stage : String
  pub selected_scale : String
  pub first_count : ℕ
  pub second_count : ℕ

abbrev count_items : Items → ℕ
count_items nil = 0
count_items (cons x xs) = suc (count_items xs)

abbrev count_fields : Fields → ℕ
count_fields end = 0
count_fields (field k v fs) = suc (count_fields fs)

-- `len(v or [])`
pub json_len : Json → Result ℕ
json_len null = ok 0
json_len (bool true) = err (type_error "object of type 'bool' has no len()")
json_len (bool false) = ok 0
json_len (num zero) = ok 0
json_len (num (suc n)) = err (type_error "object of type 'int' has no len()")
json_len (str s) = ok (count_chars s)
json_len (arr xs) = ok (count_items xs)
json_len (obj fs) = ok (count_fields fs)

-- `v.get(k)`
pub json_get : String → Json → Result Json
json_get k (obj fs) = ok (get_field k fs)
json_get k _ = err (other_error "no attribute 'get'")

-- The three inferences weigh two lists of the phase's output.
unfoldable pub infer :
    (stage : String) → (first second : Json) → (first_weight second_weight : ℕ) → Result Inference
unfolding json_len scale_from_score
infer stage a b p q = do
  m ← json_len a
  n ← json_len b
  ok (record {
    stage = stage;
    selected_scale = scale_from_score (m * p + n * q);
    first_count = m;
    second_count = n;
  })

unfoldable pub infer_scale_from_requirements : Json → Result Inference
unfolding infer json_get
infer_scale_from_requirements analysis = do
  goals ← json_get "goals" analysis
  constraints ← json_get "constraints" analysis
  infer "requirements" goals constraints 2 1

unfoldable pub infer_scale_from_architecture : (design layout : Json) → Result Inference
unfolding infer json_get
infer_scale_from_architecture design layout = do
  dirs ← json_get "directories" layout
  modules ← json_get "module_boundaries" design
  infer "architecture" dirs modules 1 2

unfoldable pub infer_scale_from_package_plan : Json → Result Inference
unfolding infer json_get
infer_scale_from_package_plan plan = do
  packages ← json_get "packages" plan
  waves ← json_get "waves" plan
  infer "package_plan" packages waves 3 2

-- The choice is the scale of the larger rank: its rank is the maximum of the two, it is one of the two
-- normalized names, and the current one is kept on a tie.
pub choose_larger_scale-max :
    (current candidate : String)
    → let c = normalize_scale_name current in
      let d = normalize_scale_name candidate in
      let r = choose_larger_scale current candidate in
      (scale_rank r ≡ max (scale_rank c) (scale_rank d))
      × ((r ≡ c) ⊎ (r ≡ d))
      × ((scale_rank d ≤ scale_rank c) → r ≡ c)
unfolding choose_larger_scale
choose_larger_scale-max current candidate = ground arith

rank_of_score : ℕ → ℕ
rank_of_score score =
    if leb 12 score then 3 else (if leb 7 score then 2 else (if leb 3 score then 1 else 0))

scale_from_score-rank : (n : ℕ) → scale_rank (scale_from_score n) ≡ rank_of_score n
unfolding rank_of_score scale_from_score
scale_from_score-rank n = ground (arith, small, medium, large, xlarge)
  where
    small : scale_rank "small" ≡ 0
    small = unfold scale_rank in refl

    medium : scale_rank "medium" ≡ 1
    medium = unfold scale_rank in refl

    large : scale_rank "large" ≡ 2
    large = unfold scale_rank in refl

    xlarge : scale_rank "xlarge_100k" ≡ 3
    xlarge = unfold scale_rank in refl

-- A larger score never selects a smaller scale.
pub scale_from_score_mono :
    (m n : ℕ) → m ≤ n → scale_rank (scale_from_score m) ≤ scale_rank (scale_from_score n)
unfolding rank_of_score
scale_from_score_mono m n h = ground (arith, scale_from_score-rank m, scale_from_score-rank n)
