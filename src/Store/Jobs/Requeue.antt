-- ===== src/Store/Jobs/Requeue.antt =====
-- dev_orchestrator/v8/store_memory.py: `requeue_expired_jobs`, by which the work of a lost worker goes
-- back to the queue.
use async_native_ai_orchestr.Prelude.{
  ℕ, String, ◌≡◌, refl, true, List, [], ◌∷◌, arith, str_eq, if◌then◌else◌, is_some, ◌&&◌, any, keep,
  length, map,
}
use async_native_ai_orchestr.Models.Kind.{PackageRole, role_value}
use async_native_ai_orchestr.Store.Jobs.{Job, claim_job, requeue_expired_jobs, expired, requeue}

-- `requeue_expired_jobs` is the entry-wise update of the expired leases of the tenant: each becomes
-- queued with no worker and no lease, every other entry stays, and the count is the number of expired
-- ones. A second call at the same time finds none and changes nothing.
pub requeue_expired_jobs-map :
    (t : String) (now : ℕ) (m : List (String × Job))
    → let (count, m') = requeue_expired_jobs t now m in
      (count ≡ length (keep (λ e. expired t now e.1) m))
      × (m' ≡ map (λ e. (e.0, if expired t now e.1 then requeue now e.1 else e.1)) m)
      × (requeue_expired_jobs t now m' ≡ (0, m'))
unfolding requeue_expired_jobs
requeue_expired_jobs-map t now [] = (refl, refl, refl)
requeue_expired_jobs-map t now ((k, j) ∷ m) =
    let (a, b, c) = requeue_expired_jobs-map t now m in ground arith

-- If some lease of the tenant has run out on a job of a role, then after `requeue_expired_jobs` any
-- worker of the tenant and the role gets a job, at any later time.
pub requeue_expired_jobs-claim_job :
    (t : String) (r : PackageRole) (w : String) (ls now later : ℕ) (m : List (String × Job))
    → any (λ e. expired t now e.1 && str_eq (role_value e.1.role) (role_value r)) m ≡ true
    → is_some (claim_job t r w ls later (requeue_expired_jobs t now m).1).0 ≡ true
unfolding requeue_expired_jobs claim_job
requeue_expired_jobs-claim_job t r w ls now later [] h = cc
requeue_expired_jobs-claim_job t r w ls now later ((k, j) ∷ m) h =
    ground (arith, requeue_expired_jobs-claim_job t r w ls now later m)
