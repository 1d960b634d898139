-- ===== src/Store/Jobs/Claim.antt =====
-- dev_orchestrator/v8/store_memory.py: to whom `claim_job` hands which job.
use async_native_ai_orchestr.Prelude.{
  ℕ, String, ◌≡◌, ◌≢◌, refl, true, false, List, [], ◌∷◌, ◌++◌, none, some, arith, inl, inr, eq_iff,
  All, Option, Bool-cases, ap,
}
use async_native_ai_orchestr.Prelude.Dict.{get}
use async_native_ai_orchestr.Models.Kind.{PackageRole}
use async_native_ai_orchestr.Models.Status.{queued, leased}
use async_native_ai_orchestr.Store.Jobs.{Job, claim_job, claimable, lease}
use async_native_ai_orchestr.Store.Jobs.Keyed.{IsKeyed, claim_job-IsKeyed, claim_job-get-none}

module _ (t : String) (r : PackageRole) (w : String) (ls now : ℕ) where
  -- The table is cut at the first job that fits.
  pub record FirstFit (jobs : List (String × Job)) (j : Job) (after : List (String × Job))
      : Type 0 where
    pub before : List (String × Job)
    pub key : String
    pub rest : List (String × Job)
    pub split : jobs ≡ before ++ (key, j) ∷ rest
    pub passed_over : All (λ e. claimable t r e.1 ≡ false) before
    pub fits : claimable t r j ≡ true
    pub updated : after ≡ before ++ (key, lease w ls now j) ∷ rest

  abbrev pub Claims : List (String × Job) → Option Job × List (String × Job) → Type 0
  Claims jobs (none, after) = All (λ e. claimable t r e.1 ≡ false) jobs × (after ≡ jobs)
  Claims jobs (some j', after) = (j : Job) × (j' ≡ lease w ls now j) × FirstFit jobs j after

  Claims-cons :
      (k : String) (j : Job) (jobs : List (String × Job)) (res : Option Job × List (String × Job))
      → claimable t r j ≡ false
      → Claims jobs res
      → Claims ((k, j) ∷ jobs) (res.0, (k, j) ∷ res.1)
  Claims-cons k j jobs (none, after) h (all, e) = ((h, all), ap (λ m. (k, j) ∷ m) e)
  Claims-cons k j jobs (some j', after) h (i, e, fit) = (
    i,
    e,
    record {
      before = (k, j) ∷ fit.before;
      key = fit.key;
      rest = fit.rest;
      split = ap (λ m. (k, j) ∷ m) fit.split;
      passed_over = (h, fit.passed_over);
      fits = fit.fits;
      updated = ap (λ m. (k, j) ∷ m) fit.updated;
    },
  )

  -- `claim_job` hands out nothing and changes nothing if no job of the tenant and the role is queued;
  -- otherwise it leases the first such job in the table's order to the worker, and every other entry
  -- stays as it was.
  pub claim_job-Claims : (jobs : List (String × Job)) → Claims jobs (claim_job t r w ls now jobs)
  unfolding claim_job
  claim_job-Claims [] = (tt, refl)
  claim_job-Claims ((k, j) ∷ jobs) = elim (Bool-cases (claimable t r j)) [
    | inl fits ↦ rw fits (
      j,
      refl,
      record {
        before = [];
        key = k;
        rest = jobs;
        split = refl;
        passed_over = tt;
        fits = fits;
        updated = refl;
      },
    )
    | inr other ↦
        rw other (Claims-cons k j jobs (claim_job t r w ls now jobs) other (claim_job-Claims jobs))
  ]

claim_job-get :
    (t : String) (r : PackageRole) (w : String) (ls now : ℕ) (m : List (String × Job)) (j : Job)
    → IsKeyed m
    → (claim_job t r w ls now m).0 ≡ some j
    → (get j.id (claim_job t r w ls now m).1 ≡ some j) × (j.status ≡ leased)
unfolding claim_job get
claim_job-get t r w ls now [] j v e = cc
claim_job-get t r w ls now ((k, i) ∷ m) j (named, fresh, v) e = ground (
  arith,
  eq_iff k j.id,
  claim_job-get t r w ls now m j v,
  claim_job-get-none t r w ls now k m fresh,
)

-- While a job under `id` is not queued, no claim hands that identifier out.
claim_job-ne_held :
    (t : String) (r : PackageRole) (w : String) (ls now : ℕ) (m : List (String × Job))
    (held j : Job) (id : String)
    → IsKeyed m
    → get id m ≡ some held
    → held.status ≢ queued
    → (claim_job t r w ls now m).0 ≡ some j
    → j.id ≢ id
unfolding claim_job get
claim_job-ne_held t r w ls now [] held j id v g h e = cc
claim_job-ne_held t r w ls now ((k, i) ∷ m) held j id (named, fresh, v) g h e = ground (
  arith,
  eq_iff k id,
  claim_job-ne_held t r w ls now m held j id v,
  claim_job-get t r w ls now m j v,
  claim_job-get-none t r w ls now k m fresh,
)

-- Two claims in a row never hand out the same job, whichever tenants, roles and workers make them.
pub claim_job-claim_job_ne :
    (t₁ t₂ : String) (r₁ r₂ : PackageRole) (w₁ w₂ : String) (ls₁ ls₂ now₁ now₂ : ℕ)
    (m : List (String × Job)) (j₁ j₂ : Job)
    → IsKeyed m
    → (claim_job t₁ r₁ w₁ ls₁ now₁ m).0 ≡ some j₁
    → (claim_job t₂ r₂ w₂ ls₂ now₂ (claim_job t₁ r₁ w₁ ls₁ now₁ m).1).0 ≡ some j₂
    → j₂.id ≢ j₁.id
claim_job-claim_job_ne t₁ t₂ r₁ r₂ w₁ w₂ ls₁ ls₂ now₁ now₂ m j₁ j₂ v e₁ e₂ =
    let (held, status) = claim_job-get t₁ r₁ w₁ ls₁ now₁ m j₁ v e₁ in
    claim_job-ne_held t₂ r₂ w₂ ls₂ now₂ _ j₁ j₂ j₁.id (claim_job-IsKeyed t₁ r₁ w₁ ls₁ now₁ m v) held
      (λ q. cc) e₂
