-- ===== src/Store/Jobs/Dedup.antt =====
-- dev_orchestrator/v8/store_memory.py: `resume_key`, by which `enqueue_job` keeps a piece of work from
-- being queued twice.
use async_native_ai_orchestr.Prelude.{
  ℕ, String, ◌≡◌, refl, subst, true, false, List, [], ◌∷◌, Option, none, some, arith, str_eq,
  eq_iff, Option-cases, Bool-cases, inl, inr, All, All-map, Bool, if_both, is_some, first, not,
  ◌&&◌,
}
use async_native_ai_orchestr.Prelude.Dict.{get, put, values, All-put}
use async_native_ai_orchestr.Models.Kind.{PackageRole}
use async_native_ai_orchestr.Models.Status.{queued}
use async_native_ai_orchestr.Json.{Json}
use async_native_ai_orchestr.Store.Jobs.{
  Job, enqueue_job, claim_job, start_job, finish_job, fail, fail_job, heartbeat_job,
  requeue_expired_jobs, is_active, active_holder, has_active_key,
}
use async_native_ai_orchestr.Store.Jobs.History.{
  Op, enqueues, claims, starts, finishes, fails, beats, requeues, step,
}

-- Two jobs that are both active under one resume key.
abbrev pub conflict : Job → Job → Bool
conflict i j = not (str_eq i.resume_key "") && (is_active i.status && has_active_key i.resume_key j)

abbrev pub UniqueActive : List (String × Job) → Type 0
UniqueActive [] = Unit
UniqueActive ((k, i) ∷ m) = All (λ e. conflict i e.1 ≡ false) m × UniqueActive m

-- The second job is what a call made of the first: it keeps the resume key, and is not revived.
abbrev pub Succeeds : Job → Job → Type 0
Succeeds i j =
    (j.resume_key ≡ i.resume_key) × (is_active j.status ≡ true → is_active i.status ≡ true)

abbrev pub AllSucceed : List (String × Job) → List (String × Job) → Type 0
AllSucceed [] [] = Unit
AllSucceed ((k, i) ∷ m) ((l, j) ∷ n) = Succeeds i j × AllSucceed m n
AllSucceed _ _ = ⊥

conflict-Succeeds :
    (i i' j j' : Job)
    → Succeeds i i'
    → Succeeds j j'
    → conflict i j ≡ false
    → conflict i' j' ≡ false
conflict-Succeeds i i' j j' h h' c = ground (
  arith,
  eq_iff i'.resume_key "",
  eq_iff i.resume_key "",
  eq_iff j'.resume_key i'.resume_key,
  eq_iff j.resume_key i.resume_key,
)

All-AllSucceed :
    (i i' : Job) (m n : List (String × Job))
    → Succeeds i i'
    → AllSucceed m n
    → All (λ e. conflict i e.1 ≡ false) m
    → All (λ e. conflict i' e.1 ≡ false) n
All-AllSucceed i i' [] [] h s c = tt
All-AllSucceed i i' [] (y ∷ n) h s c = absurd s
All-AllSucceed i i' (x ∷ m) [] h s c = absurd s
All-AllSucceed i i' ((k, j) ∷ m) ((l, j') ∷ n) h (s, ss) (c, cs) =
    (conflict-Succeeds i i' j j' h s c, All-AllSucceed i i' m n h ss cs)

UniqueActive-AllSucceed :
    (m n : List (String × Job)) → AllSucceed m n → UniqueActive m → UniqueActive n
UniqueActive-AllSucceed [] [] s u = tt
UniqueActive-AllSucceed [] (y ∷ n) s u = absurd s
UniqueActive-AllSucceed (x ∷ m) [] s u = absurd s
UniqueActive-AllSucceed ((k, i) ∷ m) ((l, i') ∷ n) (s, ss) (c, u) =
    (All-AllSucceed i i' m n s ss c, UniqueActive-AllSucceed m n ss u)

AllSucceed-refl : (m : List (String × Job)) → AllSucceed m m
AllSucceed-refl [] = tt
AllSucceed-refl ((k, i) ∷ m) = ((refl, λ h. h), AllSucceed-refl m)

put-AllSucceed :
    (k : String) (i j : Job) (m : List (String × Job))
    → get k m ≡ some i
    → Succeeds i j
    → AllSucceed m (put k j m)
unfolding get put
put-AllSucceed k i j [] e h = cc
put-AllSucceed k i j ((l, w) ∷ m) e h = elim (Bool-cases (str_eq l k)) [
  | inl same ↦
      let e' : some w ≡ some i = rw same at e in
      rw same (subst (λ x. Succeeds x j) {x = i} {y = w} (cc) h, AllSucceed-refl m)
  | inr other ↦ rw other ((refl, λ a. a), put-AllSucceed k i j m (rw other at e) h)
]

claim_job-AllSucceed :
    (t : String) (r : PackageRole) (w : String) (ls now : ℕ) (m : List (String × Job))
    → AllSucceed m (claim_job t r w ls now m).1
unfolding claim_job
claim_job-AllSucceed t r w ls now [] = tt
claim_job-AllSucceed t r w ls now ((k, j) ∷ m) =
    let rest = AllSucceed-refl m in ground (arith, claim_job-AllSucceed t r w ls now m)

requeue_expired_jobs-AllSucceed :
    (t : String) (now : ℕ) (m : List (String × Job)) → AllSucceed m (requeue_expired_jobs t now m).1
unfolding requeue_expired_jobs
requeue_expired_jobs-AllSucceed t now [] = tt
requeue_expired_jobs-AllSucceed t now ((k, j) ∷ m) =
    ground (arith, requeue_expired_jobs-AllSucceed t now m)

first-none :
    (p : Job → Bool) (m : List (String × Job))
    → first p (values m) ≡ none
    → All (λ e. p e.1 ≡ false) m
first-none p [] e = tt
first-none p ((k, j) ∷ m) e = ground (arith, first-none p m)

-- A job that no active job shares the key with can be put anywhere.
put-UniqueActive :
    (k : String) (j : Job) (m : List (String × Job))
    → (str_eq j.resume_key "" ≡ false → All (λ e. has_active_key j.resume_key e.1 ≡ false) m)
    → UniqueActive m
    → UniqueActive (put k j m)
unfolding put
put-UniqueActive k j [] h u = (tt, tt)
put-UniqueActive k j ((l, w) ∷ m) h (c, u) = elim (Bool-cases (str_eq j.resume_key "")) [
  | inl empty ↦
      if_both UniqueActive (str_eq l k) (λ _. (All-map m (λ e _. ground arith) c, u))
        (λ _. (
          All-put (λ i. conflict w i ≡ false) k j m
              (ground (
                arith,
                eq_iff j.resume_key w.resume_key,
                eq_iff j.resume_key "",
                eq_iff w.resume_key "",
              ))
              c,
          put-UniqueActive k j m (λ nonempty. cc) u,
        ))
  | inr keyed ↦
      let (hw, hs) = h keyed in
      if_both UniqueActive (str_eq l k) (λ _. (All-map m (λ e f. ground (arith)) hs, u))
        (λ _. (
          All-put (λ i. conflict w i ≡ false) k j m
              (ground (arith, eq_iff j.resume_key w.resume_key, eq_iff w.resume_key j.resume_key))
              c,
          put-UniqueActive k j m (λ _. hs) u,
        ))
]

-- A job is started or failed only while it is active.
abbrev pub RevivesNone : List (String × Job) → Op → Type 0
RevivesNone m (starts i w ls now) = (j : Job) → get i m ≡ some j → is_active j.status ≡ true
RevivesNone m (fails i w e retryable now) = (j : Job) → get i m ≡ some j → is_active j.status ≡ true
RevivesNone m _ = Unit

module _ (m : List (String × Job)) (u : UniqueActive m) where
  enqueue_job-UniqueActive : (j : Job) (now : ℕ) → UniqueActive (enqueue_job m j now).1
  unfolding enqueue_job
  enqueue_job-UniqueActive j now = elim (Option-cases (active_holder j.resume_key m)) [
    | inl e ↦
        let unheld : str_eq j.resume_key "" ≡ false
            → All (λ x. has_active_key j.resume_key x.1 ≡ false) m =
          λ keyed. first-none (has_active_key j.resume_key) m (rw keyed at e) in
        rw (e, enqueue_job)
          (if_both (λ x. UniqueActive (put j.id x m)) (is_some (get j.id m))
            (λ _. put-UniqueActive j.id j m unheld u)
            (λ _.
              put-UniqueActive j.id
                (record j { status = queued; created_at = now; updated_at = now }) m unheld u))
    | inr (i, e) ↦ rw (e, enqueue_job) u
  ]

  update-UniqueActive :
      (k : String) (i j : Job) → get k m ≡ some i → Succeeds i j → UniqueActive (put k j m)
  update-UniqueActive k i j e h =
      UniqueActive-AllSucceed m (put k j m) (put-AllSucceed k i j m e h) u

  start_job-UniqueActive :
      (i w : String) (ls now : ℕ)
      → ((j : Job) → get i m ≡ some j → is_active j.status ≡ true)
      → UniqueActive (start_job m i w ls now).1
  unfolding start_job
  start_job-UniqueActive i w ls now active = elim (Option-cases (get i m)) [
    | inl e ↦ rw (e, start_job) u
    | inr (j, e) ↦
        rw (e, start_job)
          (if_both {A = Option Job × List (String × Job)} (λ r. UniqueActive r.1)
            (str_eq j.worker_id w) (λ _. update-UniqueActive i j _ e (refl, λ _. active j e))
            (λ _. u))
  ]

  finish_job-UniqueActive :
      (i w : String) (res : Json) (now : ℕ) → UniqueActive (finish_job m i w res now).1
  unfolding finish_job
  finish_job-UniqueActive i w res now = elim (Option-cases (get i m)) [
    | inl e ↦ rw (e, finish_job) u
    | inr (j, e) ↦ rw (e, finish_job) (update-UniqueActive i j _ e (refl, λ h. cc))
  ]

  fail_job-UniqueActive :
      (i w error : String) (retryable : Bool) (now : ℕ)
      → ((j : Job) → get i m ≡ some j → is_active j.status ≡ true)
      → UniqueActive (fail_job m i w error retryable now).1
  unfolding fail_job fail
  fail_job-UniqueActive i w error retryable now active = elim (Option-cases (get i m)) [
    | inl e ↦ rw (e, fail_job) u
    | inr (j, e) ↦
        rw (e, fail_job)
          (update-UniqueActive i j (fail j error retryable now) e (ground arith, λ _. active j e))
  ]

  heartbeat_job-UniqueActive :
      (i w : String) (ls now : ℕ) → UniqueActive (heartbeat_job m i w ls now)
  unfolding heartbeat_job
  heartbeat_job-UniqueActive i w ls now = elim (Option-cases (get i m)) [
    | inl e ↦ rw (e, heartbeat_job) u
    | inr (j, e) ↦
        rw (e, heartbeat_job)
          (if_both UniqueActive (str_eq j.worker_id w)
            (λ _. update-UniqueActive i j _ e (refl, λ h. h)) (λ _. u))
  ]

  -- No call gives two active jobs one non-empty resume key, if there were no two before and the call
  -- does not start or fail a job that is completed, dead-lettered or cancelled. `enqueue_job` needs no
  -- such condition, whatever job it is given.
  pub step-UniqueActive : (o : Op) → RevivesNone m o → UniqueActive (step m o)
  unfolding step
  step-UniqueActive (enqueues j now) ok = enqueue_job-UniqueActive j now
  step-UniqueActive (claims t r w ls now) ok =
      UniqueActive-AllSucceed m _ (claim_job-AllSucceed t r w ls now m) u
  step-UniqueActive (starts i w ls now) ok = start_job-UniqueActive i w ls now ok
  step-UniqueActive (finishes i w res now) ok = finish_job-UniqueActive i w res now
  step-UniqueActive (fails i w e retryable now) ok = fail_job-UniqueActive i w e retryable now ok
  step-UniqueActive (beats i w ls now) ok = heartbeat_job-UniqueActive i w ls now
  step-UniqueActive (requeues t now) ok =
      UniqueActive-AllSucceed m _ (requeue_expired_jobs-AllSucceed t now m) u
