-- ===== src/Contracts/Kinds.antt =====
-- dev_orchestrator/v8/contract_validator.py: which kinds of task fail when.
use async_native_ai_orchestr.Prelude.{
  String, ◌≡◌, refl, sym, subst, if_both, ◌⊎◌, Bool, true, false, List, [], ◌∷◌, none, some, str_eq,
  arith, ◌↔◌, ◌≢◌, Bool-cases, inl, inr, eq_iff, ◌||◌, not, if◌then◌else◌,
}
use async_native_ai_orchestr.Prelude.Dict.{get}
use async_native_ai_orchestr.Json.{Fields}
use async_native_ai_orchestr.Contracts.{
  ContractValidation, task_contracts, is_one_of, is_listed, blocking_contract_kinds, is_empty,
  validate_agent_contract, validate_and_classify, is_blocking_failure, unknown_kind,
}

blocking-cases :
    (kind : String)
    → is_one_of blocking_contract_kinds kind ≡ true
    → (kind ≡ "requirements")
      ⊎ ((kind ≡ "package_scope") ⊎ ((kind ≡ "package_wave") ⊎ (kind ≡ "file_manifest_patch")))
blocking-cases kind h = elim (Bool-cases (str_eq kind "requirements")) [
  | inl e ↦ inl ((eq_iff kind "requirements").0 e)
  | inr n₁ ↦ elim (Bool-cases (str_eq kind "package_scope")) [
    | inl e ↦ inr (inl ((eq_iff kind "package_scope").0 e))
    | inr n₂ ↦ elim (Bool-cases (str_eq kind "package_wave")) [
      | inl e ↦ inr (inr (inl ((eq_iff kind "package_wave").0 e)))
      | inr n₃ ↦ elim (Bool-cases (str_eq kind "file_manifest_patch")) [
        | inl e ↦ inr (inr (inr ((eq_iff kind "file_manifest_patch").0 e)))
        | inr n₄ ↦ absurd (ground arith)
      ]
    ]
  ]
]

-- Every blocking kind has a name, is listed and has a model.
abbrev HasModel : String → Type 0
HasModel kind =
    (str_eq kind "" ≡ false)
    × (is_listed kind ≡ true)
    × ((model : String) × (get kind task_contracts ≡ some model))

blocking-HasModel : (kind : String) → is_one_of blocking_contract_kinds kind ≡ true → HasModel kind
unfolding get
blocking-HasModel kind h = elim (blocking-cases kind h) [
  | inl e ↦ subst HasModel (sym e) (refl, refl, ("RequirementsContract", refl))
  | inr (inl e) ↦ subst HasModel (sym e) (refl, refl, ("PackageScopeContract", refl))
  | inr (inr (inl e)) ↦ subst HasModel (sym e) (refl, refl, ("PackageWaveContract", refl))
  | inr (inr (inr e)) ↦ subst HasModel (sym e) (refl, refl, ("FileManifestPatch", refl))
]

is_empty-cases : (es : List String) → (is_empty es ≡ false) ↔ (es ≢ [])
is_empty-cases [] = ((λ h. absurd (cc)), λ h. absurd (h refl))
is_empty-cases (e ∷ es) = ((λ h. λ h'. cc), λ h. refl)

module _ (model_errors : String → Fields → List String) (repr : String → String) where
  type_kept :
      (kind : String) (parsed : Fields)
      → (validate_and_classify model_errors repr kind parsed).contract_type ≡ kind
  unfolding validate_and_classify
  type_kept kind parsed =
      if_both {A = ContractValidation} (λ v. v.contract_type ≡ kind)
        (str_eq kind "" || not (is_listed kind)) (λ _. refl) (λ _. refl)

  classified :
      (kind : String) (parsed : Fields) (model : String)
      → str_eq kind "" ≡ false
      → is_listed kind ≡ true
      → get kind task_contracts ≡ some model
      → (validate_and_classify model_errors repr kind parsed).is_ok
        ≡ is_empty (model_errors model parsed)
  unfolding validate_and_classify validate_agent_contract
  classified kind parsed model named listed known =
      rw (named, listed, known, validate_agent_contract) refl

  -- A validation blocks the pipeline exactly if the task is one of the blocking kinds and pydantic
  -- finds an error in the output with the model of that kind, which every blocking kind has.
  pub is_blocking_failure_iff :
      (kind : String) (parsed : Fields)
      → (is_blocking_failure (validate_and_classify model_errors repr kind parsed) ≡ true) ↔ (
          (is_one_of blocking_contract_kinds kind ≡ true)
          × ((model : String) × (get kind task_contracts ≡ some model)
              × (model_errors model parsed ≢ [])))
  unfolding is_blocking_failure
  is_blocking_failure_iff kind parsed =
      let v = validate_and_classify model_errors repr kind parsed in
      elim (Bool-cases (is_one_of blocking_contract_kinds kind)) [
        | inl blocks ↦
            let (named, listed, (model, known)) = blocking-HasModel kind blocks in
            let result = classified kind parsed model named listed known in
            let empty = is_empty (model_errors model parsed) in
            let blocked : is_blocking_failure v ≡ (if empty then false else true) =
              rw (result, type_kept kind parsed, blocks) refl in
            (
              (λ h. (
                blocks,
                (model, known, (is_empty-cases (model_errors model parsed)).0 (ground arith)),
              )),
              λ (b, (m, known', found)).
                  let same : model ≡ m = ground arith in
                  let full : is_empty (model_errors model parsed) ≡ false =
                    (is_empty-cases (model_errors model parsed)).1 (rw same found) in
                  rw (blocked, full) refl,
            )
        | inr advisory ↦
            let calm : is_blocking_failure v ≡ false =
              if_both {A = Bool} (λ b. b ≡ false) v.is_ok (λ _. refl)
                (λ _. rw (type_kept kind parsed) advisory) in
            ((λ h. absurd (cc)), λ h. absurd (cc))
      ]

  -- A listed kind without a model fails with every output: so it is for `code_generation`.
  pub validate_and_classify-unregistered :
      (kind : String) (parsed : Fields)
      → is_listed kind ≡ true
      → str_eq kind "" ≡ false
      → get kind task_contracts ≡ none
      → (validate_and_classify model_errors repr kind parsed).errors
        ≡ unknown_kind model_errors repr kind ∷ []
  unfolding validate_and_classify validate_agent_contract
  validate_and_classify-unregistered kind parsed listed named unknown =
      rw (named, listed, unknown, validate_agent_contract) refl
