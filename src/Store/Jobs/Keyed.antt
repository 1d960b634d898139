-- ===== src/Store/Jobs/Keyed.antt =====
-- dev_orchestrator/v8/store_memory.py: `_jobs` maps each job's identifier to that job.
use async_native_ai_orchestr.Prelude.{
  ℕ, String, ◌≡◌, ◌≢◌, refl, List, [], ◌∷◌, none, some, arith, eq_iff,
}
use async_native_ai_orchestr.Prelude.Dict.{get, put}
use async_native_ai_orchestr.Models.Kind.{PackageRole}
use async_native_ai_orchestr.Store.Jobs.{Job, claim_job, requeue_expired_jobs}

-- Every entry stands under its job's identifier, and no identifier has two entries.
abbrev pub IsKeyed : List (String × Job) → Type 0
IsKeyed [] = Unit
IsKeyed ((k, j) ∷ m) = (j.id ≡ k) × (get k m ≡ none) × IsKeyed m

get-put-none :
    (k i : String) (v : Job) (m : List (String × Job))
    → k ≢ i
    → get i m ≡ none
    → get i (put k v m) ≡ none
unfolding get put
get-put-none k i v [] h e = ground (arith, eq_iff k i)
get-put-none k i v ((j, w) ∷ m) h e =
    ground (arith, eq_iff j k, eq_iff j i, eq_iff k i, get-put-none k i v m h)

pub put-IsKeyed : (j : Job) (m : List (String × Job)) → IsKeyed m → IsKeyed (put j.id j m)
unfolding put get
put-IsKeyed j [] v = (refl, refl, tt)
put-IsKeyed j ((k, w) ∷ m) (e, fresh, v) =
    ground (arith, eq_iff k j.id, put-IsKeyed j m v, get-put-none j.id k j m)

pub get-id :
    (k : String) (j : Job) (m : List (String × Job)) → IsKeyed m → get k m ≡ some j → j.id ≡ k
unfolding get
get-id k j [] v e = cc
get-id k j ((i, w) ∷ m) (named, fresh, v) e = ground (arith, eq_iff i k, get-id k j m v)

pub claim_job-get-none :
    (t : String) (r : PackageRole) (w : String) (ls now : ℕ) (k : String) (m : List (String × Job))
    → get k m ≡ none
    → get k (claim_job t r w ls now m).1 ≡ none
unfolding get claim_job
claim_job-get-none t r w ls now k [] e = refl
claim_job-get-none t r w ls now k ((i, j) ∷ m) e =
    ground (arith, eq_iff i k, claim_job-get-none t r w ls now k m)

pub claim_job-IsKeyed :
    (t : String) (r : PackageRole) (w : String) (ls now : ℕ) (m : List (String × Job))
    → IsKeyed m
    → IsKeyed (claim_job t r w ls now m).1
unfolding claim_job
claim_job-IsKeyed t r w ls now [] v = tt
claim_job-IsKeyed t r w ls now ((k, j) ∷ m) (e, fresh, v) =
    ground (arith, claim_job-IsKeyed t r w ls now m v, claim_job-get-none t r w ls now k m fresh)

requeue_expired_jobs-get-none :
    (t : String) (now : ℕ) (k : String) (m : List (String × Job))
    → get k m ≡ none
    → get k (requeue_expired_jobs t now m).1 ≡ none
unfolding get requeue_expired_jobs
requeue_expired_jobs-get-none t now k [] e = refl
requeue_expired_jobs-get-none t now k ((i, j) ∷ m) e =
    ground (arith, eq_iff i k, requeue_expired_jobs-get-none t now k m)

pub requeue_expired_jobs-IsKeyed :
    (t : String) (now : ℕ) (m : List (String × Job))
    → IsKeyed m
    → IsKeyed (requeue_expired_jobs t now m).1
unfolding requeue_expired_jobs
requeue_expired_jobs-IsKeyed t now [] v = tt
requeue_expired_jobs-IsKeyed t now ((k, j) ∷ m) (e, fresh, v) =
    ground
      (arith, requeue_expired_jobs-IsKeyed t now m v, requeue_expired_jobs-get-none t now k m fresh)
