-- ===== src/Phase/Verdict.antt =====
-- dev_orchestrator/v8/phases/quality.py: what the verdict of the quality phase says.
use async_native_ai_orchestr.Prelude.{
  ℕ, ◌≡◌, ◌⊎◌, ◌∙◌, inl, inr, refl, subst, arith, String, Bool, true, false, not, ◌&&◌, ◌||◌, List,
  [], ◌∷◌, ◌++◌, none, str_eq, keep, length, ltb, any, all, ◌==◌, All, Bool-cases, if_both, ==_iff,
  if◌then◌else◌,
}
use async_native_ai_orchestr.Json.{
  Json, Fields, Items, null, bool, num, str, arr, obj, truthy, get_field, fields_of, is_str,
}
use async_native_ai_orchestr.Result.{Result, ok, err}
use async_native_ai_orchestr.Scheduler.{AiCallResult}
use async_native_ai_orchestr.Store.Records.{WorkPackage}
use async_native_ai_orchestr.Phase.{
  Listed, listed_kind, Services, PhaseInput, and_then, as_dict, or_empty, scale_profile_of,
  int_field, Step, pure, lift, ◌>>=◌,
}
use async_native_ai_orchestr.Phase.Quality.{
  Gate, fails_as, profile_gate, dag_gate, gate_scale_profile, gate_mission_state, gate_dag,
  gate_ai_execution, has_documents, count_packages, settled, ai_gate_of, Report, report_on,
  result_with, ai_gate, deterministic_gates, conclude, evaluate, execute, pass_without_packages,
  empty_report, quality_call, quality_file, report_fields,
}

abbrev IsStrict : Gate → Type 0
IsStrict g =
    (str_eq g.name "ai_quality_gate" ≡ false)
    × ((str_eq g.severity "critical" ≡ true)
        ⊎ ((str_eq g.severity "critical" ≡ false) × (str_eq g.severity "major" ≡ true)))

abbrev is_deterministic : Gate → Bool
is_deterministic g = not (str_eq g.name "ai_quality_gate")

abbrev failures : String → List Gate → ℕ
failures severity gs = length (keep (fails_as severity) (keep is_deterministic gs))

-- A gate that asks no model fails the report exactly if it is not passed.
failures-strict :
    (ai : Gate) (gs : List Gate)
    → str_eq ai.name "ai_quality_gate" ≡ true
    → All IsStrict gs
    → ((failures "critical" (gs ++ (ai ∷ [])) == 0) && (failures "major" (gs ++ (ai ∷ [])) == 0))
      ≡ all (λ g. truthy g.is_ok) gs
failures-strict ai [] h hs = rw h
failures-strict ai (g ∷ gs) h ((det, sev), hs) = elim (Bool-cases (truthy g.is_ok)) [
  | inl passed ↦ rw (det, passed) (failures-strict ai gs h hs)
  | inr failed ↦ elim sev [
    | inl critical ↦ rw (det, failed, critical) (ground arith)
    | inr (minor, major) ↦ rw (det, failed, minor, major) (ground arith)
  ]
]

-- The four things that the deterministic gates look for, where a value of another type, a store that raises
-- and a length that there is not count as missing.
abbrev pub names_profile : Fields → Bool
names_profile metadata = truthy (get_field "name" (fields_of (get_field "scale_profile" metadata)))

abbrev pub is_positive : Result ℕ → Bool
is_positive (ok n) = ltb 0 n
is_positive (err e) = false

abbrev pub holds_patch_set : Result (List Listed) → Bool
holds_patch_set (ok artifacts) = any (λ a. str_eq (listed_kind a) "patch_set") artifacts
holds_patch_set (err e) = false

abbrev Answers : Gate → Bool → Type 0
Answers g b = IsStrict g × (truthy g.is_ok ≡ b)

abbrev is_named : Result Fields → Bool
is_named (ok profile) = truthy (get_field "name" profile)
is_named (err e) = false

is_named-or_empty :
    (v : Json) → is_named (as_dict (or_empty v)) ≡ truthy (get_field "name" (fields_of v))
is_named-or_empty null = refl
is_named-or_empty (bool true) = refl
is_named-or_empty (bool false) = refl
is_named-or_empty (num n) = elim (Bool-cases (n == 0)) [ inl e ↦ rw e | inr e ↦ rw e ]
is_named-or_empty (str s) = elim (Bool-cases (str_eq s "")) [ inl e ↦ rw e | inr e ↦ rw e ]
is_named-or_empty (arr Items.nil) = refl
is_named-or_empty (arr (Items.cons x xs)) = refl
is_named-or_empty (obj Fields.end) = refl
is_named-or_empty (obj (Fields.field k v fs)) = refl

profile_gate-Answers : (r : Result Fields) → Answers (settled (profile_gate r)) (is_named r)
unfolding settled
profile_gate-Answers (ok fs) = ((refl, inl refl), refl)
profile_gate-Answers (err e) = ((refl, inr (refl, refl)), refl)

dag_gate-Answers : (r : Result ℕ) → Answers (settled (dag_gate r)) (is_positive r)
unfolding settled
dag_gate-Answers (ok n) = ((refl, inl refl), refl)
dag_gate-Answers (err e) = ((refl, inr (refl, refl)), refl)

has_some : (p : Listed → Bool) (xs : List Listed) → ltb 0 (length (keep p xs)) ≡ any p xs
has_some p [] = refl
has_some p (x ∷ xs) = elim (Bool-cases (p x)) [
  | inl e ↦ rw e (ground arith)
  | inr e ↦ rw e (has_some p xs)
]

gate_ai_execution-Answers :
    (r : Result (List Listed)) → Answers (settled (gate_ai_execution r)) (holds_patch_set r)
unfolding settled gate_ai_execution
gate_ai_execution-Answers (ok xs) =
    ((refl, inl refl), has_some (λ a. str_eq (listed_kind a) "patch_set") xs)
gate_ai_execution-Answers (err e) = ((refl, inr (refl, refl)), refl)

gate_mission_state-Answers :
    (metadata : Fields) → Answers (settled (gate_mission_state metadata)) (has_documents metadata)
unfolding settled gate_mission_state
gate_mission_state-Answers metadata = ((refl, inl refl), refl)

abbrev pub has_no_packages : Result (List WorkPackage) → Bool
has_no_packages (ok []) = true
has_no_packages (ok (x ∷ xs)) = false
has_no_packages (err e) = false

module _ {S : Type 0} (services : Services S) (p : PhaseInput) where
  -- What the report says, by the metadata and the artifacts.
  abbrev pub is_go : S → Bool
  is_go s =
      names_profile p.metadata
      && (has_documents p.metadata
          && (is_positive (count_packages p.metadata)
              && holds_patch_set (services.list_artifacts s p.run_id none)))

  report_on-is_ok :
      (s : S) (ai : Gate) (n : ℕ)
      → str_eq ai.name "ai_quality_gate" ≡ true
      → (report_on (deterministic_gates services p s ++ (ai ∷ [])) n).is_ok ≡ is_go s
  unfolding report_on deterministic_gates gate_scale_profile gate_dag
  report_on-is_ok s ai n h =
      let (s₁, a₁) = profile_gate-Answers (scale_profile_of p.metadata) in
      let (s₂, a₂) = gate_mission_state-Answers p.metadata in
      let (s₃, a₃) = dag_gate-Answers (count_packages p.metadata) in
      let (s₄, a₄) = gate_ai_execution-Answers (services.list_artifacts s p.run_id none) in
      failures-strict ai (deterministic_gates services p s) h (s₁, (s₂, (s₃, (s₄, tt))))
      ∙ rw (a₁, a₂, a₃, a₄, is_named-or_empty (get_field "scale_profile" p.metadata)) (ground arith)

  abbrev NamesAi : Result Gate × S → Type 0
  NamesAi (ok g, s) = str_eq g.name "ai_quality_gate" ≡ true
  NamesAi (err e, s) = Unit

  ai_gate_of-name :
      (r : AiCallResult) → str_eq (ai_gate_of services.loads r).name "ai_quality_gate" ≡ true
  unfolding ai_gate_of
  ai_gate_of-name r = elim (Bool-cases r.is_ok) [ inl e ↦ rw e refl | inr e ↦ rw e refl ]

  ai_gate-NamesAi : (s : S) → NamesAi (ai_gate services p s)
  unfolding ai_gate
  ai_gate-NamesAi s = profile (scale_profile_of p.metadata)
    where
      answered :
          (r : Result AiCallResult × S)
          → NamesAi (and_then r (λ a. pure (ai_gate_of services.loads a)))
      answered (ok a, s') = ai_gate_of-name a
      answered (err e, s') = tt

      budgeted :
          (r : Result ℕ)
          → NamesAi (
              and_then
                (r, s)
                (λ n. services.call (quality_call services p n) >>= λ a.
                  pure (ai_gate_of services.loads a)))
      budgeted (ok n) = answered (services.call (quality_call services p n) s)
      budgeted (err e) = tt

      profile :
          (r : Result Fields)
          → NamesAi (
              and_then
                (r, s)
                (λ sp. lift (int_field "context_budget_chars" 36000 sp) >>= λ n.
                  services.call (quality_call services p n) >>= λ a.
                  pure (ai_gate_of services.loads a)))
      profile (ok sp) = budgeted (int_field "context_budget_chars" 36000 sp)
      profile (err e) = tt

  -- A result, if there is one, has the status "ok" exactly if `b`.
  abbrev Says : Bool → Result Fields × S → Type 0
  Says b (ok result, s) = is_str "ok" (get_field "status" result) ≡ b
  Says b (err e, s) = Unit

  status-Says :
      (report : Report) (b : Bool) (r : Result (Unit {0}) × S)
      → report.is_ok ≡ b
      → Says b (
          and_then r (λ _.
            pure (result_with (if report.is_ok then "ok" else "blocked") (report_fields report))))
  status-Says report b (ok u, t) h = status report.is_ok (report_fields report) ∙ h
    where
      status :
          (c : Bool) (fs : Fields)
          → is_str "ok" (get_field "status" (result_with (if c then "ok" else "blocked") fs)) ≡ c
      status true fs = refl
      status false fs = refl
  status-Says report b (err e, t) h = tt

  conclude-Says :
      (s s' : S) (ai : Gate)
      → str_eq ai.name "ai_quality_gate" ≡ true
      → Says (is_go s) (conclude services p (deterministic_gates services p s) ai s')
  unfolding conclude
  conclude-Says s s' ai h =
      let n = services.elapsed_ms s' in
      let report = report_on (deterministic_gates services p s ++ (ai ∷ [])) n in
      status-Says report (is_go s) (services.write (quality_file p (report_fields report)) s')
        (report_on-is_ok s ai n h)

  evaluate-Says : (s : S) → Says (is_go s) (evaluate services p s)
  unfolding evaluate
  evaluate-Says s = go (ai_gate services p s) (ai_gate-NamesAi s)
    where
      go :
          (r : Result Gate × S)
          → NamesAi r
          → Says (is_go s) (and_then r (conclude services p (deterministic_gates services p s)))
      go (ok ai, t) h = conclude-Says s t ai h
      go (err x, t) h = tt

  pass-Says : (s : S) → Says true (pass_without_packages services p s)
  unfolding pass_without_packages
  pass-Says s = go (services.write (quality_file p empty_report) s)
    where
      go :
          (r : Result (Unit {0}) × S)
          → Says true (and_then r (λ _. pure (result_with "ok" empty_report)))
      go (ok u, t) = refl
      go (err e, t) = tt

  execute-Says :
      (s : S)
      → Says
          (has_no_packages (services.list_work_packages s p.run_id) || is_go s)
          (execute services p s)
  unfolding execute
  execute-Says s = go (services.list_work_packages s p.run_id)
    where
      go :
          (r : Result (List WorkPackage))
          → Says (has_no_packages r || is_go s) (
              and_then
                (r, s)
                (λ packages.
                  if length packages == 0
                  then pass_without_packages services p
                  else evaluate services p))
      go (ok []) = pass-Says s
      go (ok (x ∷ xs)) =
          if_both {A = Step S Fields} (λ m. Says (is_go s) (m s)) (length (x ∷ xs) == 0)
            (λ h. absurd (omega (arith, (==_iff (length (x ∷ xs)) 0).0 h))) (λ _. evaluate-Says s)
      go (err e) = tt

  -- A quality phase that returns says "ok" exactly if the run has no packages, or if the metadata names a
  -- scale profile, holds requirements and an architecture, and a plan with a package, and the artifacts
  -- hold a patch set. What the language model answers does not matter, and a gate that raises fails.
  pub execute-is_go :
      (s s' : S) (result : Fields)
      → execute services p s ≡ (ok result, s')
      → is_str "ok" (get_field "status" result)
        ≡ (has_no_packages (services.list_work_packages s p.run_id) || is_go s)
  execute-is_go s s' result e =
      subst (Says (has_no_packages (services.list_work_packages s p.run_id) || is_go s)) e
        (execute-Says s)
