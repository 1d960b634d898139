-- ===== src/Worker/Loop.antt =====
-- dev_orchestrator/v8/worker.py: `run_forever` and the workers of `WorkerSupervisor`. A round of the loop is
-- given by what happens before it, which are the calls of all others and the time that passes; there are
-- no more rounds once the shutdown is requested.
use async_native_ai_orchestr.Prelude.{
  ℕ, ◌+◌, ◌≤◌, max, String, ◌≡◌, subst, Bool, false, List, [], ◌∷◌, Option, none, some, arith, leb,
  length, Option-cases, inl, inr, if_both, if◌then◌else◌,
}
use async_native_ai_orchestr.Result.{Error}
use async_native_ai_orchestr.Models.Kind.{PackageRole}
use async_native_ai_orchestr.Store.Jobs.{Job, claim_job, requeue_expired_jobs}
use async_native_ai_orchestr.Pipeline.World.{World}
use async_native_ai_orchestr.Pipeline.Phases.{Handler}
use async_native_ai_orchestr.Worker.{execute}

pub record AsyncWorker : Type 0 where
  pub worker_id : String
  pub role : PackageRole
  pub tenant_id : String
  pub lease_seconds : ℕ

-- `requeue_expired_jobs` and `_try_claim`, which raise nothing in the in-memory store.
unfoldable pub try_claim : AsyncWorker → World → Option Job × World
try_claim a w =
    let jobs = (requeue_expired_jobs a.tenant_id w.now w.store.jobs).1 in
    let (job, jobs') = claim_job a.tenant_id a.role a.worker_id a.lease_seconds w.now jobs in
    (job, record w { store = record w.store { jobs = jobs' } })

-- `max_jobs is not None and executed >= max_jobs`
abbrev pub has_reached : Option ℕ → ℕ → Bool
has_reached none executed = false
has_reached (some n) executed = leb n executed

module _ (describe : Error → String) (handler : Handler) (a : AsyncWorker)
    (max_jobs : Option ℕ) where
  -- The number of executed jobs, and the world at the end.
  unfoldable pub run_rounds : List (World → World) → (executed : ℕ) → World → ℕ × World
  run_rounds [] executed w = (executed, w)
  run_rounds (others ∷ rounds) executed w =
      let (claimed, w₁) = try_claim a (others w) in
      elim claimed [
        | none ↦ run_rounds rounds executed w₁
        | some job ↦
            let w₂ = (execute describe handler a.worker_id a.lease_seconds job w₁).1 in
            let rest = run_rounds rounds (executed + 1) w₂ in
            if has_reached max_jobs (executed + 1) then (executed + 1, w₂) else rest
      ]

  unfoldable pub run_forever : List (World → World) → World → ℕ × World
  run_forever rounds w = run_rounds rounds 0 w

  run_rounds-le :
      (m : ℕ) (rounds : List (World → World)) (executed : ℕ) (w : World)
      → max_jobs ≡ some m
      → executed + 1 ≤ max 1 m
      → (run_rounds rounds executed w).0 ≤ max 1 m
  unfolding run_rounds
  run_rounds-le m [] executed w e room = omega arith
  run_rounds-le m (others ∷ rounds) executed w e room =
      elim (Option-cases (try_claim a (others w)).0) [
        | inl idle ↦ rw (run_rounds, idle) (run_rounds-le m rounds executed _ e room)
        | inr (job, claimed) ↦
            rw (run_rounds, claimed)
              (if_both {A = ℕ × World} (λ r. r.0 ≤ max 1 m) (has_reached max_jobs (executed + 1))
                (λ reached. room)
                (λ going.
                  let going' : has_reached (some m) (executed + 1) ≡ false =
                    subst (λ o. has_reached o (executed + 1) ≡ false) e going in
                  run_rounds-le m rounds (executed + 1) _ e (ground arith)))
      ]

  run_rounds-length_le :
      (rounds : List (World → World)) (executed : ℕ) (w : World)
      → (run_rounds rounds executed w).0 ≤ executed + length rounds
  unfolding run_rounds
  run_rounds-length_le [] executed w = omega arith
  run_rounds-length_le (others ∷ rounds) executed w =
      elim (Option-cases (try_claim a (others w)).0) [
        | inl idle ↦
            let rest = run_rounds-length_le rounds executed (try_claim a (others w)).1 in
            rw (run_rounds, idle) (omega arith)
        | inr (job, claimed) ↦
            let w₂ =
              (execute describe handler a.worker_id a.lease_seconds job
                (try_claim a (others w)).1).1 in
            let rest = run_rounds-length_le rounds (executed + 1) w₂ in
            rw (run_rounds, claimed)
              (if_both {A = ℕ × World} (λ r. r.0 ≤ executed + length (others ∷ rounds))
                (has_reached max_jobs (executed + 1)) (λ reached. omega arith)
                (λ going. omega arith))
      ]

  -- A worker with a limit executes at most as many jobs, where a limit of 0 counts as 1, and at most
  -- one job in each round of its loop, whatever the jobs do and whatever happens between the rounds.
  pub run_forever-le :
      (m : ℕ) (rounds : List (World → World)) (w : World)
      → max_jobs ≡ some m
      → ((run_forever rounds w).0 ≤ max 1 m) × ((run_forever rounds w).0 ≤ length rounds)
  unfolding run_forever
  run_forever-le m rounds w e =
      (run_rounds-le m rounds 0 w e (omega arith), omega (arith, run_rounds-length_le rounds 0 w))
