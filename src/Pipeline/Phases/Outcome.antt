-- ===== src/Pipeline/Phases/Outcome.antt =====
-- dev_orchestrator/v8/pipeline.py: what the result of a job does to its run and to the table of jobs.
use async_native_ai_orchestr.Prelude.{
  ℕ, ◌+◌, ◌≤◌, ◌<◌, String, true, false, ◌≡◌, ◌⊎◌, inl, inr, refl, ap, ◌∙◌, ◌≢◌, sym, subst, Option,
  none, some, eq_refl, arith, ltb, or_else, Option-cases, Bool-cases,
}
use mathlib.Core.Option
use async_native_ai_orchestr.Prelude.Dict.{get, put, get-put_self}
use async_native_ai_orchestr.Json.{Fields, is_str, get_field}
use async_native_ai_orchestr.Result.{Result, Result-cases, ok, err}
use async_native_ai_orchestr.Models.Status.{RunStatus}
use async_native_ai_orchestr.Models.Kind.{JobType, job_type_value}
use async_native_ai_orchestr.Store.Jobs.{Job, active_holder}
use async_native_ai_orchestr.Store.Records.{Run, RunMetadata, StateTransition}
use async_native_ai_orchestr.Store.Memory.{
  RunFields, get_run, with_fields, revalidated, updated, update_run, add_event,
}
use async_native_ai_orchestr.Pipeline.World.{World, M, pure, try_store, and_then, ◌>>◌}
use async_native_ai_orchestr.Pipeline.State.{
  update_run_state, emit, set_status, build_state_transition_event, no_fields,
}
use async_native_ai_orchestr.Pipeline.Enqueue.{enqueue_phase_job}
use async_native_ai_orchestr.Pipeline.Advance.{is_terminal, next_phase}
use async_native_ai_orchestr.Pipeline.Advance.Runs.{
  update_run_state-get_run, enqueue_phase_job-KeepsRuns,
}
use async_native_ai_orchestr.Pipeline.Advance.Progress.{
  advance_run-active_holder, advance_run-enqueue_phase_job, phase_key, retry_key,
  enqueue_phase_job-retry_holder, then_pure-world,
}
use async_native_ai_orchestr.Profiles.Attempts.{scale_job_attempts}
use async_native_ai_orchestr.Pipeline.Phases.{
  advance_after_job, reject_result, retry_phase, count_retry,
}

-- How often the run has retried the phase.
abbrev pub retries : JobType → Run → ℕ
retries t run = or_else (get (job_type_value t) run.metadata.retry_counts) 0

emit-jobs :
    (i : String) (t : Option StateTransition) (w : World) → (emit i t w).1.store.jobs ≡ w.store.jobs
unfolding emit add_event
emit-jobs i none w = refl
emit-jobs i (some t) w = refl

update_run_state-jobs :
    (i : String) (f : RunFields) (w : World) → (update_run_state i f w).1.store.jobs ≡ w.store.jobs
unfolding update_run_state update_run get_run get
update_run_state-jobs i f w = elim (Option-cases (get i w.store.runs)) [
  | inl e ↦ rw (e, update_run_state) refl
  | inr (r, e) ↦ elim (Result-cases (revalidated w.store.validate_metadata f r)) [
    | inr (x, bad) ↦ rw (e, update_run_state) (rw bad refl)
    | inl (base, valid) ↦
        let r' = with_fields base f w.now in
        let w' = record w { store = record w.store { runs = put i r' w.store.runs } } in
        rw (e, update_run_state) (rw valid (emit-jobs i (build_state_transition_event r r') w'))
  ]
]

-- Metadata that is given is stored as it is.
update_run-then :
    {B : Type 0} (n : M B) (i : String) (m : RunMetadata) (r : Run) (w : World)
    → get_run w.store i ≡ some r
    → let f = record no_fields { metadata = some m } in
      (try_store (λ now. λ s. update_run s i f now) >> n) w
      ≡ n (record w {
        store = record w.store { runs = put i (with_fields r f w.now) w.store.runs };
      })
unfolding update_run get_run
update_run-then n i m r w e = rw (e, update_run) refl

then_pure-runs :
    (m : M Job) (w : World)
    → (m w).1.store.runs ≡ w.store.runs
    → ((m >> pure tt) w).1.store.runs ≡ w.store.runs
then_pure-runs m w e = go (m w) e
  where
    go :
        (r : Result Job × World)
        → r.1.store.runs ≡ w.store.runs
        → (and_then r (λ _. pure tt)).1.store.runs ≡ w.store.runs
    go (ok j, v) h = h
    go (err x, v) h = h

module _ (job : Job) (result : Fields) (w : World) where
  -- A result with the status "completed", which a handler returns when the run's checkpoint is already past
  -- its phase: for a run that is there and not terminal, whose checkpoint a phase follows and whose scale
  -- profile gives that phase a number of attempts, the run is left as it was, and an active job holds the
  -- resume key of the phase that follows, a new one or the one that was there.
  pub advance_after_job-completed :
      (run : Run) (t : JobType) (n : ℕ)
      → is_str "completed" (get_field "status" result) ≡ true
      → is_str "ok" (get_field "status" result) ≡ false
      → get_run w.store job.run_id ≡ some run
      → is_terminal run.status ≡ false
      → get run.checkpoint next_phase ≡ some t
      → scale_job_attempts (job_type_value t) run.metadata.scale_profile ≡ ok n
      → let s = (advance_after_job job result w).1.store in
        (get_run s job.run_id ≡ some run) × (active_holder (phase_key run t) s.jobs ≢ none)
  unfolding advance_after_job get_run
  advance_after_job-completed run t n done not_ok e live next attempts =
      let made = advance_run-active_holder job.run_id run t n w e live next attempts in
      let world = advance_run-enqueue_phase_job job.run_id run t w e live next in
      let runs = ap (λ v. v.store.runs) world ∙ enqueue_phase_job-KeepsRuns run t false w in
      rw (not_ok, done) (ap (get job.run_id) runs ∙ e, made)

  -- A result that is neither "ok" nor "completed", of the kind "circuit_open", makes no job, so that no
  -- retry is used up, and blocks the run, if it is there: the run keeps everything but its status, the
  -- time and its metadata, which is what its validation makes of it, and it stays as it was where its
  -- metadata does not validate.
  pub advance_after_job-circuit_open :
      is_str "ok" (get_field "status" result) ≡ false
      → is_str "completed" (get_field "status" result) ≡ false
      → is_str "circuit_open" (get_field "error_kind" result) ≡ true
      → let s = (advance_after_job job result w).1.store in
        (get_run s job.run_id
          ≡ Option.map {A = Run}
              (λ r. elim (w.store.validate_metadata r.metadata) [
                | ok m ↦ record r { metadata = m; status = RunStatus.blocked; updated_at = w.now }
                | err e ↦ r
              ])
              (get_run w.store job.run_id))
        × (s.jobs ≡ w.store.jobs)
  unfolding advance_after_job reject_result
  advance_after_job-circuit_open not_ok not_done circuit =
      rw (not_ok, not_done)
        (rw circuit (
          rw (update_run_state-get_run job.run_id (set_status RunStatus.blocked) w job.run_id) (
              rw (eq_refl job.run_id) (
                ap (λ (f : Run → Run). Option.map {A = Run} f (get_run w.store job.run_id))
                  blocked_as)),
          update_run_state-jobs job.run_id (set_status RunStatus.blocked) w,
        ))
    where
      base_of : (r : Run) → Result RunMetadata → Result Run
      base_of r v = elim v [ err e ↦ err e | ok m ↦ ok (record r { metadata = m }) ]

      go :
          (r : Run) (v : Result RunMetadata)
          → ◌≡◌ {A = Run}
              (elim (base_of r v) [
                | err e ↦ r
                | ok base ↦ with_fields base (set_status RunStatus.blocked) w.now
              ])
              (elim v [
                | ok m ↦ record r { metadata = m; status = RunStatus.blocked; updated_at = w.now }
                | err e ↦ r
              ])
      go r (ok m) = refl
      go r (err e) = refl

      blocked_as : updated w.store.validate_metadata (set_status RunStatus.blocked) w.now ≡ (λ r.
          elim (w.store.validate_metadata r.metadata) [
            | ok m ↦ record r { metadata = m; status = RunStatus.blocked; updated_at = w.now }
            | err e ↦ r
          ])
      blocked_as = λ k r. go r (w.store.validate_metadata r.metadata) k

module _ (job : Job) (run : Run) (w : World) where
  -- What the end of `retry_phase` is, for the run that it was given.
  abbrev pub Retried : World → Type 0
  Retried w' =
      (run' : Run) × (get_run w'.store job.run_id ≡ some run')
      × (((retries job.job_type run + 1 < job.max_attempts)
            × (retries job.job_type run' ≡ retries job.job_type run + 1)
            × (run'.status ≡ run.status)
            × (active_holder (retry_key run job.job_type (w.mint w.minted)) w'.store.jobs ≢ none))
          ⊎ ((job.max_attempts ≤ retries job.job_type run + 1)
              × (run'.status ≡ RunStatus.blocked)
              × (w'.store.jobs ≡ w.store.jobs)))

  -- For the run that the store holds, whose metadata validates and whose scale profile gives the phase a
  -- number of attempts: only while the count stays below the job's `max_attempts`, a failed phase is
  -- counted and an active job holds the resume key of the retry; else the run is blocked and no job is
  -- made.
  pub retry_phase-Retried :
      (m : RunMetadata) (n : ℕ)
      → get_run w.store job.run_id ≡ some run
      → w.store.validate_metadata run.metadata ≡ ok m
      → scale_job_attempts (job_type_value job.job_type) run.metadata.scale_profile ≡ ok n
      → Retried (retry_phase job run w).1
  unfolding retry_phase get_run
  retry_phase-Retried m n e valid attempts =
      elim (Bool-cases (ltb (retries job.job_type run + 1) job.max_attempts)) [
        | inl more ↦
            let counted = count_retry run job.job_type in
            let fields = record no_fields { metadata = some counted } in
            let run' = with_fields run fields w.now in
            let w1 = record w {
              store = record w.store { runs = put job.run_id run' w.store.runs };
            } in
            let again = enqueue_phase_job run job.job_type true in
            rw more (
              rw (update_run-then (again >> pure tt) job.run_id counted run w e) (
                run',
                ap (get job.run_id) (
                      then_pure-runs again w1
                        (enqueue_phase_job-KeepsRuns run job.job_type true w1))
                    ∙ get-put_self job.run_id run' w.store.runs,
                inl (
                  ground arith,
                  ap (λ o. or_else o 0)
                      (get-put_self (job_type_value job.job_type) (retries job.job_type run + 1)
                        run.metadata.retry_counts),
                  refl,
                  subst
                      (λ v.
                        active_holder (retry_key run job.job_type (w.mint w.minted)) v.store.jobs
                        ≢ none)
                      (sym (then_pure-world (again w1)))
                      (enqueue_phase_job-retry_holder run job.job_type n w1 attempts),
                ),
              ))
        | inr last ↦
            let base = record run { metadata = m } in
            let fits : revalidated w.store.validate_metadata (set_status RunStatus.blocked) run
                ≡ ok base =
              rw valid refl in
            rw last (
              with_fields base (set_status RunStatus.blocked) w.now,
              rw
                  (
                    update_run_state-get_run job.run_id (set_status RunStatus.blocked) w job.run_id,
                    eq_refl job.run_id,
                    e,
                  )
                  (rw (fits, updated) refl),
              inr (
                ground arith,
                refl,
                update_run_state-jobs job.run_id (set_status RunStatus.blocked) w,
              ),
            )
      ]
