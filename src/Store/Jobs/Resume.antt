-- ===== src/Store/Jobs/Resume.antt =====
-- dev_orchestrator/v8/store_memory.py: `enqueue_job` as seen by a caller that may call it again.
use async_native_ai_orchestr.Prelude.{
  ℕ, String, ◌≡◌, ◌≢◌, inl, inr, refl, true, false, List, [], ◌∷◌, none, some, arith, str_eq,
  eq_refl, Option-cases, Bool, if_both, is_some, first,
}
use async_native_ai_orchestr.Prelude.Dict.{get, put, values}
use async_native_ai_orchestr.Models.Status.{queued}
use async_native_ai_orchestr.Store.Jobs.{Job, enqueue_job, active_holder, has_active_key, is_active}

first-put :
    (p : Job → Bool) (k : String) (j : Job) (m : List (String × Job))
    → p j ≡ true
    → first p (values (put k j m)) ≢ none
unfolding put
first-put p k j [] h = ground arith
first-put p k j ((i, w) ∷ m) h = ground (arith, first-put p k j m h)

-- After `enqueue_job` with a resume key, an active job holds that key, whether the job is new, is
-- written over one with its identifier, or is dropped for one that held the key.
pub enqueue_job-active_holder :
    (m : List (String × Job)) (j : Job) (now : ℕ)
    → str_eq j.resume_key "" ≡ false
    → is_active j.status ≡ true
    → active_holder j.resume_key (enqueue_job m j now).1 ≢ none
unfolding enqueue_job
enqueue_job-active_holder m j now keyed active =
    elim (Option-cases (active_holder j.resume_key m)) [
      | inr (i, e) ↦ rw (e, enqueue_job) (λ n. ground arith)
      | inl e ↦
          rw (e, enqueue_job)
            (rw keyed (
              if_both (λ x. first (has_active_key j.resume_key) (values (put j.id x m)) ≢ none)
                (is_some (get j.id m))
                (λ _.
                  first-put (has_active_key j.resume_key) j.id j m
                    (rw (eq_refl j.resume_key) active))
                (λ _.
                  first-put (has_active_key j.resume_key) j.id
                    (record j { status = queued; created_at = now; updated_at = now }) m
                    (rw (eq_refl j.resume_key) refl))))
    ]

pub enqueue_job-held :
    (m : List (String × Job)) (k i : Job) (later : ℕ)
    → active_holder k.resume_key m ≡ some i
    → enqueue_job m k later ≡ (i, m)
unfolding enqueue_job
enqueue_job-held m k i later e = rw (e, enqueue_job) refl

-- A second `enqueue_job` under the same key, at any time and with any other job, changes nothing and
-- answers with the job that holds the key.
pub enqueue_job-enqueue_job :
    (m : List (String × Job)) (j k : Job) (now later : ℕ)
    → str_eq j.resume_key "" ≡ false
    → is_active j.status ≡ true
    → k.resume_key ≡ j.resume_key
    → let m' = (enqueue_job m j now).1 in
      ((enqueue_job m' k later).1 ≡ m')
      × (some (enqueue_job m' k later).0 ≡ active_holder j.resume_key m')
enqueue_job-enqueue_job m j k now later keyed active same =
    let m' = (enqueue_job m j now).1 in
    elim (Option-cases (active_holder j.resume_key m')) [
      | inl e ↦ absurd (enqueue_job-active_holder m j now keyed active e)
      | inr (i, e) ↦ rw (enqueue_job-held m' k i later (rw same e), e) (refl, refl)
    ]
