-- ===== src/Postgres/Jobs/Refines.antt =====
-- dev_orchestrator/v8/store_pg.py: the methods on `jobs` do to each job what the queue of phases allows.
use async_native_ai_orchestr.Prelude.{
  ℕ, ◌+◌, String, ◌≡◌, ◌≢◌, refl, sym, subst, ◌∙◌, Bool, true, false, List, [], ◌∷◌, Option, none,
  some, arith, str_eq, eq_iff, ◌&&◌, if_both, ltb, Option-cases, Bool-cases, inl, inr, ◌⊎◌,
}
use async_native_ai_orchestr.Prelude.Dict.{Dict, get, put, get-put, All-put, All-get}
use async_native_ai_orchestr.Models.Kind.{PackageRole}
use async_native_ai_orchestr.Models.Status.{
  JobStatus, queued, leased, running, completed, retry, dead_letter,
}
use async_native_ai_orchestr.Json.{Json}
use async_native_ai_orchestr.Result.{Result}
use async_native_ai_orchestr.Store.Jobs.{Job, seconds, lease_before, active_holder}
use async_native_ai_orchestr.Store.Jobs.Keyed.{IsKeyed, put-IsKeyed, get-id}
use async_native_ai_orchestr.Store.Jobs.History.{
  Op, enqueues, claims, starts, finishes, fails, beats, requeues,
}
use async_native_ai_orchestr.Postgres.Jobs.{
  enqueue_job, claim_job, start_job, finish_job, fail_job, heartbeat_job, requeue_expired_jobs,
  is_held, is_final, is_waiting, claimable, oldest, leased_to, update_where, startable, started,
  is_owned, finished, failed, beaten, expired, requeued, inserted,
}
use async_native_ai_orchestr.Postgres.Jobs.History.{step, run, IsFree, AllFree, Allowed, AllAllowed}
use async_native_ai_orchestr.Postgres.Jobs.Phases.{
  phase_by, waiting, held, over, phase, phase_of, Moves, stays, arrives, is_taken, is_started,
  is_extended, is_finished, is_retried, is_given_up, expires_back, expires_out, Runs, ends, goes_on,
}

-- What a call keeps of the table, and what it does to the job under each identifier.
pub record Refined (o : Op) (m m' : Dict Job) : Type 0 where
  pub keyed : IsKeyed m'
  pub free : AllFree m'
  pub moves : (i : String) → Moves o i (phase_of (get i m)) (phase_of (get i m'))

module _ (o : Op) (m : Dict Job) (v : IsKeyed m) (f : AllFree m) where
  same-Refined : Refined o m m
  same-Refined = record { keyed = v; free = f; moves = λ i. stays }

  -- Writing one row refines the queue if the row's own phase makes a move.
  put-Refined :
      (j : Job)
      → IsFree j
      → Moves o j.id (phase_of (get j.id m)) (some (phase j))
      → Refined o m (put j.id j m)
  put-Refined j h step_of = record {
    keyed = put-IsKeyed j m v;
    free = All-put IsFree j.id j m h f;
    moves = λ i. rw (get-put j.id i j m) (elim (Bool-cases (str_eq j.id i)) [
      | inl same ↦ rw same (
          subst (λ k. Moves o k (phase_of (get k m)) (some (phase j))) ((eq_iff j.id i).0 same)
            step_of)
      | inr other ↦ rw other stays
    ]);
  }

  row-Refined :
      (i : String) (j j' : Job)
      → get i m ≡ some j
      → j'.id ≡ j.id
      → IsFree j'
      → Moves o i (some (phase j)) (some (phase j'))
      → Refined o m (put i j' m)
  row-Refined i j j' e same h step_of =
      let named = same ∙ get-id i j m v e in
      subst (λ k. Refined o m (put k j' m)) named (put-Refined j' h (rw (named, e) step_of))

  update_where-Refined :
      (p : Job → Bool) (g : Job → Job) (i : String)
      → ((j : Job)
          → get i m ≡ some j
          → p j ≡ true
          → ((g j).id ≡ j.id) × IsFree (g j) × Moves o i (some (phase j)) (some (phase (g j))))
      → Refined o m (update_where p g i m).1
  update_where-Refined p g i h = elim (Option-cases (get i m)) [
    | inl e ↦ rw (e, update_where) same-Refined
    | inr (j, e) ↦
        rw (e, update_where)
          (if_both {A = Option Job × Dict Job} (λ r. Refined o m r.1) (p j)
            (λ fits.
              let (same, free, moved) = h j e fits in row-Refined i j (g j) e same free moved)
            (λ _. same-Refined))
  ]

phase-held :
    (s : JobStatus) (w : String) (u : Option ℕ) → is_held s ≡ true → phase_by s w u ≡ held w u
phase-held leased w u e = refl
phase-held running w u e = refl
phase-held _ w u e = absurd (cc)

phase-waiting :
    (s : JobStatus) (w : String) (u : Option ℕ) → is_waiting s ≡ true → phase_by s w u ≡ waiting
phase-waiting queued w u e = refl
phase-waiting retry w u e = refl
phase-waiting _ w u e = absurd (cc)

phase-final :
    (s : JobStatus) (w : String) (u : Option ℕ) → is_final s ≡ true → phase_by s w u ≡ over
phase-final completed w u e = refl
phase-final dead_letter w u e = refl
phase-final _ w u e = absurd (cc)

-- A row that names a worker is held by it or over.
owned-cases :
    (s : JobStatus) (w w' : String)
    → (is_held s ≡ false → is_final s ≡ false → w' ≡ "")
    → w' ≡ w
    → w ≢ ""
    → (is_held s ≡ true) ⊎ (is_final s ≡ true)
owned-cases s w w' h e named = elim (Bool-cases (is_held s)) [
  | inl e' ↦ inl e'
  | inr unheld ↦ elim (Bool-cases (is_final s)) [
    | inl e' ↦ inr e'
    | inr not_final ↦ absurd (named (sym e ∙ h unheld not_final))
  ]
]

held_unless_final :
    (j : Job) (w : String)
    → IsFree j
    → j.worker_id ≡ w
    → w ≢ ""
    → is_final j.status ≡ false
    → is_held j.status ≡ true
held_unless_final j w h by named open_job = elim (owned-cases j.status w j.worker_id h by named) [
  | inl held_now ↦ held_now
  | inr over_now ↦ absurd (cc)
]

failed-Moves :
    (i w error : String) (retryable : Bool) (now : ℕ) (j : Job) (u : Option ℕ)
    → Moves
        (fails i w error retryable now)
        i
        (some (held w u))
        (some (phase (failed error retryable now j)))
unfolding failed
failed-Moves i w error false now j u = is_given_up
failed-Moves i w error true now j u = elim (Bool-cases (ltb j.attempts j.max_attempts)) [
  | inl left ↦ rw left is_retried
  | inr used ↦ rw used is_given_up
]

requeued-Moves :
    (t k : String) (now : ℕ) (j : Job)
    → expired t now j ≡ true
    → Moves (requeues t now) k (some (phase j)) (some (phase (requeued now j)))
unfolding requeued
requeued-Moves t k now j late =
    let held_now : is_held j.status ≡ true = ground arith in
    let after : lease_before j.lease_until now ≡ true = ground arith in
    rw (phase-held j.status j.worker_id j.lease_until held_now)
      (elim (Bool-cases (ltb j.attempts j.max_attempts)) [
        | inl left ↦ rw left (expires_back after)
        | inr used ↦ rw used (expires_out after)
      ])

requeue_expired_jobs-get-none :
    (t : String) (now : ℕ) (k : String) (m : Dict Job)
    → get k m ≡ none
    → get k (requeue_expired_jobs t now m).1 ≡ none
unfolding get requeue_expired_jobs
requeue_expired_jobs-get-none t now k [] e = refl
requeue_expired_jobs-get-none t now k ((i, j) ∷ m) e =
    ground (arith, eq_iff i k, requeue_expired_jobs-get-none t now k m)

-- Both tables grow by a row under the same new identifier.
cons-Refined :
    (o : Op) (k : String) (j j' : Job) (m m' : Dict Job)
    → j'.id ≡ k
    → get k m' ≡ none
    → IsFree j'
    → Moves o k (some (phase j)) (some (phase j'))
    → Refined o m m'
    → Refined o ((k, j) ∷ m) ((k, j') ∷ m')
unfolding get
cons-Refined o k j j' m m' named fresh h moved rest = record {
  keyed = (named, fresh, rest.keyed);
  free = (h, rest.free);
  moves = λ i. elim (Bool-cases (str_eq k i)) [
    | inl same ↦
        rw same
          (subst (λ n. Moves o n (some (phase j)) (some (phase j'))) ((eq_iff k i).0 same) moved)
    | inr other ↦ rw other (rest.moves i)
  ];
}

requeue_expired_jobs-Refined :
    (t : String) (now : ℕ) (m : Dict Job)
    → IsKeyed m
    → AllFree m
    → Refined (requeues t now) m (requeue_expired_jobs t now m).1
unfolding requeue_expired_jobs requeued
requeue_expired_jobs-Refined t now [] v f = same-Refined (requeues t now) [] tt tt
requeue_expired_jobs-Refined t now ((k, j) ∷ m) (named, fresh, v) (h, f) =
    let o = requeues t now in
    let rest = requeue_expired_jobs-Refined t now m v f in
    let fresh' = requeue_expired_jobs-get-none t now k m fresh in
    if_both {A = ℕ × Dict Job} (λ r. Refined o ((k, j) ∷ m) r.1) (expired t now j)
      (λ late.
        cons-Refined o k j (requeued now j) m _ named fresh' (λ a b. refl)
          (requeued-Moves t k now j late) rest)
      (λ _. cons-Refined o k j j m _ named fresh' h stays rest)

oldest-fits :
    (p : Job → Bool) (m : Dict Job) (j : Job)
    → IsKeyed m
    → oldest p m ≡ some j
    → (get j.id m ≡ some j) × (p j ≡ true)
unfolding oldest get
oldest-fits p [] j v e = cc
oldest-fits p ((k, i) ∷ m) j (named, fresh, v) e = elim (Option-cases (oldest p m)) [
  | inl none_left ↦ ground (arith, eq_iff k j.id)
  | inr (r, left) ↦ ground (arith, eq_iff k j.id, oldest-fits p m r v left)
]

module _ (m : Dict Job) (v : IsKeyed m) (f : AllFree m) where
  enqueue_job-Refined :
      (j : Job) (now : ℕ) → j.worker_id ≡ "" → Refined (enqueues j now) m (enqueue_job m j now).1
  unfolding enqueue_job
  enqueue_job-Refined j now free = elim (Option-cases (active_holder j.resume_key m)) [
    | inl e ↦
        rw (e, enqueue_job)
          (elim (Option-cases (get j.id m)) [
            | inl none_yet ↦ rw none_yet (
                put-Refined (enqueues j now) m v f
                  (inserted (record j { status = queued; updated_at = now })) (λ a b. free)
                  (rw none_yet arrives))
            | inr (i, there) ↦ rw there (same-Refined (enqueues j now) m v f)
          ])
    | inr (i, e) ↦ rw (e, enqueue_job) (same-Refined (enqueues j now) m v f)
  ]

  claim_job-Refined :
      (t : String) (r : PackageRole) (w : String) (ls now : ℕ)
      → w ≢ ""
      → Refined (claims t r w ls now) m (claim_job t r w ls now m).1
  unfolding claim_job
  claim_job-Refined t r w ls now named = elim (Option-cases (oldest (claimable t r) m)) [
    | inl e ↦ rw (e, claim_job) (same-Refined _ m v f)
    | inr (j, e) ↦
        let (found, fits) = oldest-fits (claimable t r) m j v e in
        let waits : is_waiting j.status ≡ true = ground arith in
        rw (e, claim_job)
          (put-Refined (claims t r w ls now) m v f (leased_to w ls now j) (λ a b. cc)
            (rw (found, phase-waiting j.status j.worker_id j.lease_until waits) is_taken))
  ]

  start_job-Refined :
      (i w : String) (ls now : ℕ) → Refined (starts i w ls now) m (start_job m i w ls now).1
  unfolding start_job
  start_job-Refined i w ls now =
      update_where-Refined (starts i w ls now) m v f (startable w) (started ls now) i (λ j e fits.
        let held_now : is_held j.status ≡ true = ground arith in
        let by : j.worker_id ≡ w = ground (arith, eq_iff j.worker_id w) in
        (
          refl,
          (λ a b. cc),
          rw (phase-held j.status j.worker_id j.lease_until held_now, by) is_started,
        ))

  heartbeat_job-Refined :
      (i w : String) (ls now : ℕ) → Refined (beats i w ls now) m (heartbeat_job m i w ls now)
  unfolding heartbeat_job
  heartbeat_job-Refined i w ls now =
      update_where-Refined (beats i w ls now) m v f (λ j. is_owned w j && is_held j.status)
        (beaten ls now) i
        (λ j e fits.
          let held_now : is_held j.status ≡ true = ground arith in
          let by : j.worker_id ≡ w = ground (arith, eq_iff j.worker_id w) in
          (
            refl,
            (λ a b. cc),
            rw
                (
                  phase-held j.status j.worker_id j.lease_until held_now,
                  phase-held j.status j.worker_id (some (now + seconds ls)) held_now,
                  by,
                )
                is_extended,
          ))

  finish_job-update :
      (i w : String) (res : Json) (now : ℕ)
      → (finish_job m i w res now).1 ≡ (update_where (is_owned w) (finished res now) i m).1
  unfolding finish_job
  finish_job-update i w res now = refl

  finish_job-Refined :
      (i w : String) (res : Json) (now : ℕ)
      → w ≢ ""
      → Refined (finishes i w res now) m (finish_job m i w res now).1
  finish_job-Refined i w res now named = rw (finish_job-update i w res now) (
      update_where-Refined (finishes i w res now) m v f (is_owned w) (finished res now) i
        (λ j e owned.
          let by = (eq_iff j.worker_id w).0 owned in
          let moved : Moves (finishes i w res now) i (some (phase j)) (some over) =
            elim (owned-cases j.status w j.worker_id (All-get IsFree i j m e f) by named) [
              | inl held_now ↦
                  rw (phase-held j.status j.worker_id j.lease_until held_now, by) is_finished
              | inr over_now ↦ rw (phase-final j.status j.worker_id j.lease_until over_now) stays
            ] in
          (refl, (λ a b. cc), moved)))

  fail_job-Refined :
      (i w error : String) (retryable : Bool) (now : ℕ)
      → w ≢ ""
      → ((j : Job) → get i m ≡ some j → is_final j.status ≡ false)
      → Refined (fails i w error retryable now) m (fail_job m i w error retryable now).1
  unfolding fail_job failed
  fail_job-Refined i w error retryable now named open_job = elim (Option-cases (get i m)) [
    | inl e ↦ rw (e, fail_job) (same-Refined _ m v f)
    | inr (j, e) ↦
        let o = fails i w error retryable now in
        rw (e, fail_job)
          (if_both {A = Result Job × Dict Job} (λ r. Refined o m r.1) (is_owned w j)
            (λ owned.
              let by = (eq_iff j.worker_id w).0 owned in
              let left = failed-Moves i w error retryable now j j.lease_until in
              let held_now =
                held_unless_final j w (All-get IsFree i j m e f) by named (open_job j e) in
              row-Refined o m v f i j (failed error retryable now j) e refl (λ a b. refl)
                (rw (phase-held j.status j.worker_id j.lease_until held_now, by) left))
            (λ _. same-Refined o m v f))
  ]

  step-Refined : (o : Op) → Allowed m o → Refined o m (step m o)
  unfolding step
  step-Refined (enqueues j now) free = enqueue_job-Refined j now free
  step-Refined (claims t r w ls now) named = claim_job-Refined t r w ls now named
  step-Refined (starts i w ls now) ok = start_job-Refined i w ls now
  step-Refined (finishes i w res now) named = finish_job-Refined i w res now named
  step-Refined (fails i w e retryable now) (named, open_job) =
      fail_job-Refined i w e retryable now named open_job
  step-Refined (beats i w ls now) ok = heartbeat_job-Refined i w ls now
  step-Refined (requeues t now) ok = requeue_expired_jobs-Refined t now m v f

-- The methods on `jobs` refine the queue of phases: whatever sequence of calls is made, the rows of one
-- identifier before and after it are related by moves of that queue, one for each call. So a job that
-- a worker holds leaves it only when that worker finishes or fails that job, or when its lease has run
-- out at a requeue. The table has one row for an identifier and no free row names a worker; new rows name
-- no worker, workers have names, and no job is failed after it is over.
pub run-Runs :
    (m : Dict Job) (os : List Op) (i : String)
    → IsKeyed m
    → AllFree m
    → AllAllowed m os
    → Runs i os (phase_of (get i m)) (phase_of (get i (run m os)))
run-Runs m [] i v f ok = ends
run-Runs m (o ∷ os) i v f (ok, oks) =
    let done = step-Refined m v f o ok in
    goes_on (done.moves i) (run-Runs (step m o) os i done.keyed done.free oks)
