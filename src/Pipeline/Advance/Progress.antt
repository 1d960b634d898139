-- ===== src/Pipeline/Advance/Progress.antt =====
-- dev_orchestrator/v8/pipeline.py: `advance_run` brings about the job of the next phase.
use Prim.Native.Char.{Char}
use Prim.Native.String.append.{nil, cons}
use Prim.Native.String.compare.{cons-nil}
use text.Mathlib.Text.{is_eq}
use async_native_ai_orchestr.Prelude.{
  ℕ, zero, suc, String, ◌≡◌, ◌≢◌, refl, ap, subst, ◌∙◌, false, true, none, some, arith, str_eq,
  str_append, eq_iff, Bool-cases, inl, inr,
}
use async_native_ai_orchestr.Prelude.Dict.{Dict, get}
use async_native_ai_orchestr.Text.{take_chars}
use async_native_ai_orchestr.Result.{Result, ok, err, Result-cases}
use async_native_ai_orchestr.Models.Kind.{JobType, job_type_value}
use async_native_ai_orchestr.Profiles.Attempts.{scale_job_attempts}
use async_native_ai_orchestr.Store.Jobs.{Job, active_holder, enqueue_job}
use async_native_ai_orchestr.Store.Jobs.Resume.{enqueue_job-active_holder, enqueue_job-held}
use async_native_ai_orchestr.Store.Records.{Run}
use async_native_ai_orchestr.Store.Memory.{get_run}
use async_native_ai_orchestr.Pipeline.World.{World, pure, and_then}
use async_native_ai_orchestr.Pipeline.Enqueue.{
  enqueue, enqueue_phase_job, retry_suffix, colon, new_job, phase_default_role,
}
use async_native_ai_orchestr.Pipeline.Advance.{
  advance_run, left, wave_loop, loop_fuel, enter_phase, is_terminal, in_waves, next_phase,
}

-- The resume key of the job of a phase.
abbrev pub phase_key : Run → JobType → String
phase_key run t = str_append (colon run.id (job_type_value t)) ""

module _ (c : Char) where
  cons_append : (s t : String) → str_append (String.◌∷◌ c s) t ≡ String.◌∷◌ c (str_append s t)
  cons_append s t = λ i. cons c s t i

  cons_ne : (s : String) → str_eq (String.◌∷◌ c s) "" ≡ false
  cons_ne s = ap is_eq (λ i. cons-nil c s i)

nil_append : (t : String) → str_append "" t ≡ t
nil_append t = λ i. nil t i

colon-ne : (s v u : String) → str_eq (str_append (colon s v) u) "" ≡ false
colon-ne String.[] v u =
    rw (nil_append, cons_append ":" "" v, cons_append)
      (cons_ne ":" (str_append (str_append "" v) u))
colon-ne (String.◌∷◌ c s) v u =
    rw (cons_append, cons_append) (cons_ne c (str_append (str_append s (str_append ":" v)) u))

enqueue_phase_job-active_holder :
    (run : Run) (t : JobType) (n : ℕ) (w : World)
    → scale_job_attempts (job_type_value t) run.metadata.scale_profile ≡ ok n
    → active_holder (phase_key run t) (enqueue_phase_job run t false w).1.store.jobs ≢ none
unfolding enqueue_phase_job retry_suffix enqueue
enqueue_phase_job-active_holder run t n w e =
    rw (e, enqueue_phase_job)
      (enqueue_job-active_holder w.store.jobs
        (new_job (w.mint w.minted) run.tenant_id run.id t (phase_default_role t) (phase_key run t) n
          w.now)
        w.now (colon-ne run.id (job_type_value t) "") refl)

-- The resume key of a retry, by the identifier that its suffix takes.
abbrev pub retry_key : Run → JobType → (id : String) → String
retry_key run t id =
    str_append (colon run.id (job_type_value t)) (str_append ":retry:" (take_chars 8 id))

pub enqueue_phase_job-retry_holder :
    (run : Run) (t : JobType) (n : ℕ) (w : World)
    → scale_job_attempts (job_type_value t) run.metadata.scale_profile ≡ ok n
    → active_holder
        (retry_key run t (w.mint w.minted))
        (enqueue_phase_job run t true w).1.store.jobs
      ≢ none
unfolding enqueue_phase_job retry_suffix enqueue
enqueue_phase_job-retry_holder run t n w e =
    let key = retry_key run t (w.mint w.minted) in
    rw (e, enqueue_phase_job)
      (enqueue_job-active_holder w.store.jobs
        (new_job (w.mint (suc w.minted)) run.tenant_id run.id t (phase_default_role t) key n w.now)
        w.now
        (colon-ne run.id (job_type_value t) (str_append ":retry:" (take_chars 8 (w.mint w.minted))))
        refl)

get-str_eq :
    {A : Type 0} (c d : String) (m : Dict A) (a : A)
    → get d m ≡ none
    → get c m ≡ some a
    → str_eq c d ≡ false
get-str_eq c d m a absent found = elim (Bool-cases (str_eq c d)) [
  | inr differ ↦ differ
  | inl same ↦
      let e = subst (λ k. get k m ≡ some a) ((eq_iff c d).0 same) found in
      let impossible : ⊥ = ground arith in absurd impossible
]

next_phase-live :
    (c : String) (t : JobType)
    → get c next_phase ≡ some t
    → (in_waves c ≡ false) × (str_eq c "release_candidate_completed" ≡ false)
unfolding get
next_phase-live c t e = (
  rw
      (
        get-str_eq c "package_planning_completed" next_phase t refl e,
        get-str_eq c "wave_queued" next_phase t refl e,
        get-str_eq c "package_completed" next_phase t refl e,
      )
      refl,
  get-str_eq c "release_candidate_completed" next_phase t refl e,
)

wave_loop-left :
    (k : ℕ) (run_id : String) (run : Run) (w : World)
    → in_waves run.checkpoint ≡ false
    → wave_loop k run_id run w ≡ (ok (left run), w)
unfolding wave_loop
wave_loop-left zero run_id run w e = rw e refl
wave_loop-left (suc k) run_id run w e = rw e refl

enqueue_phase_job-held :
    (run : Run) (t : JobType) (j : Job) (w : World)
    → active_holder (phase_key run t) w.store.jobs ≡ some j
    → (enqueue_phase_job run t false w).1.store ≡ w.store
unfolding enqueue_phase_job retry_suffix enqueue enqueue_job
enqueue_phase_job-held run t j w e =
    elim (Result-cases (scale_job_attempts (job_type_value t) run.metadata.scale_profile)) [
      | inr (x, failed) ↦ rw (failed, enqueue_phase_job) refl
      | inl (n, given) ↦
          rw (given, enqueue_phase_job)
            (ap (λ m. record w.store { jobs = m.1 })
              (enqueue_job-held w.store.jobs
                (new_job (w.mint w.minted) run.tenant_id run.id t (phase_default_role t)
                  (phase_key run t) n w.now)
                j w.now e))
    ]

pub then_pure-world : (r : Result Job × World) → (and_then r (λ _. pure tt)).1 ≡ r.1
then_pure-world (ok j, w) = refl
then_pure-world (err e, w) = refl

-- What `advance_run` does at a checkpoint from which a phase follows.
pub advance_run-enqueue_phase_job :
    (run_id : String) (run : Run) (t : JobType) (w : World)
    → get_run w.store run_id ≡ some run
    → is_terminal run.status ≡ false
    → get run.checkpoint next_phase ≡ some t
    → (advance_run run_id w).1 ≡ (enqueue_phase_job run t false w).1
unfolding advance_run enter_phase
advance_run-enqueue_phase_job run_id run t w e live next =
    let (out, going) = next_phase-live run.checkpoint t next in
    rw (e, live)
      (rw (wave_loop-left loop_fuel run_id run w out)
        (rw (going, next) (then_pure-world (enqueue_phase_job run t false w))))

-- At a checkpoint from which a phase follows, `advance_run` on a run that is not terminal and whose scale
-- profile gives the phase a number of attempts leaves an active job under the resume key of that phase: a
-- new one, or the one that was there.
pub advance_run-active_holder :
    (run_id : String) (run : Run) (t : JobType) (n : ℕ) (w : World)
    → get_run w.store run_id ≡ some run
    → is_terminal run.status ≡ false
    → get run.checkpoint next_phase ≡ some t
    → scale_job_attempts (job_type_value t) run.metadata.scale_profile ≡ ok n
    → active_holder (phase_key run t) (advance_run run_id w).1.store.jobs ≢ none
advance_run-active_holder run_id run t n w e live next attempts =
    rw (advance_run-enqueue_phase_job run_id run t w e live next)
      (enqueue_phase_job-active_holder run t n w attempts)

-- While an active job holds the resume key of the phase that follows a run's checkpoint,
-- `advance_run` on the run, which is not terminal, changes nothing in the store.
pub advance_run-held :
    (run_id : String) (run : Run) (t : JobType) (j : Job) (w : World)
    → get_run w.store run_id ≡ some run
    → is_terminal run.status ≡ false
    → get run.checkpoint next_phase ≡ some t
    → active_holder (phase_key run t) w.store.jobs ≡ some j
    → (advance_run run_id w).1.store ≡ w.store
advance_run-held run_id run t j w e live next held =
    ap (λ v. v.store) (advance_run-enqueue_phase_job run_id run t w e live next)
    ∙ enqueue_phase_job-held run t j w held
