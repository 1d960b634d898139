-- ===== src/Kernel/Plan.antt =====
-- dev_orchestrator/v8/kernel.py: the resume plan, beside `advance_run` of dev_orchestrator/v8/pipeline.py.
use async_native_ai_orchestr.Prelude.{
  ℕ, String, ◌≡◌, ◌≢◌, refl, subst, true, false, none, str_append, not, List, [], ◌∷◌, some, arith,
  str_eq, eq_iff, keep, All, Bool-cases, inl, inr,
}
use async_native_ai_orchestr.Prelude.Dict.{Dict, get}
use async_native_ai_orchestr.Models.Status.{RunStatus}
use async_native_ai_orchestr.Models.Kind.{JobType, job_type_value}
use async_native_ai_orchestr.Store.Jobs.{Job, active_holder}
use async_native_ai_orchestr.Store.Records.{Run, WorkPackage}
use async_native_ai_orchestr.Result.{ok}
use async_native_ai_orchestr.Profiles.Attempts.{scale_job_attempts}
use async_native_ai_orchestr.Store.Memory.{get_run}
use async_native_ai_orchestr.Pipeline.World.{World}
use async_native_ai_orchestr.Pipeline.Enqueue.{colon}
use async_native_ai_orchestr.Pipeline.Advance.{next_phase, is_terminal, advance_run}
use async_native_ai_orchestr.Pipeline.Advance.Progress.{advance_run-active_holder}
use async_native_ai_orchestr.Kernel.{
  checkpoint_to_action, is_pending_job, has_status_dead_letter, is_pending_package, may_go_on,
  build_checkpoint_resume_plan,
}

All-get_entry {ℓ κ} :
    {V : Type ℓ} (P : String × V → Type κ) (k : String) (v : V) (m : Dict V)
    → get k m ≡ some v
    → All P m
    → P (k, v)
unfolding get
All-get_entry P k v [] e hs = absurd (cc)
All-get_entry P k v ((i, w) ∷ m) e (h, hs) = elim (Bool-cases (str_eq i k)) [
  | inl same ↦
      let value : some w ≡ some v = rw same at e in
      let entry : (i, w) ≡ (k, v) = ground (arith, eq_iff i k) in subst P entry h
  | inr other ↦ All-get_entry P k v m (rw other at e) hs
]

-- The action that the plan shows at a checkpoint is the job that `advance_run` makes there.
next_phase-checkpoint_to_action :
    (c : String) (t : JobType)
    → get c next_phase ≡ some t
    → get c checkpoint_to_action ≡ some (job_type_value t)
unfolding get
next_phase-checkpoint_to_action c t e =
    All-get_entry (λ p. get p.0 checkpoint_to_action ≡ some (job_type_value p.1)) c t next_phase e
      (refl, (refl, (refl, (refl, (refl, (refl, (refl, (refl, tt))))))))

has_text : (c : String) (t : JobType) → get c next_phase ≡ some t → str_eq c "" ≡ false
has_text c t e =
    All-get_entry (λ p. str_eq p.0 "" ≡ false) c t next_phase e
      (refl, (refl, (refl, (refl, (refl, (refl, (refl, (refl, tt))))))))

may_go_on-is_terminal : (s : RunStatus) → may_go_on s ≡ not (is_terminal s)
may_go_on-is_terminal RunStatus.queued = refl
may_go_on-is_terminal RunStatus.running = refl
may_go_on-is_terminal RunStatus.paused = refl
may_go_on-is_terminal RunStatus.recovering = refl
may_go_on-is_terminal RunStatus.blocked = refl
may_go_on-is_terminal RunStatus.no_go = refl
may_go_on-is_terminal RunStatus.completed = refl
may_go_on-is_terminal RunStatus.cancelled = refl
may_go_on-is_terminal RunStatus.release_ready = refl
may_go_on-is_terminal RunStatus.rolled_back = refl

-- For a run that waits for nothing, with no job pending or given up and no package pending, the resume
-- plan says what `advance_run` does: if the run is not terminal, a phase follows its checkpoint and its
-- scale profile gives that phase a number of attempts, the plan calls the run resumable, and `advance_run`
-- leaves an active job under the resume key of the plan's next action.
pub build_checkpoint_resume_plan-advance_run :
    (run : Run) (jobs : List Job) (packages : List WorkPackage) (t : JobType) (n : ℕ) (w : World)
    → keep has_status_dead_letter jobs ≡ []
    → keep is_pending_job jobs ≡ []
    → keep is_pending_package packages ≡ []
    → get run.checkpoint next_phase ≡ some t
    → get_run w.store run.id ≡ some run
    → is_terminal run.status ≡ false
    → scale_job_attempts (job_type_value t) run.metadata.scale_profile ≡ ok n
    → let plan = build_checkpoint_resume_plan run jobs packages in
      (plan.resumable ≡ true)
      × (active_holder
            (str_append (colon run.id plan.next_action) "")
            (advance_run run.id w).1.store.jobs
          ≢ none)
unfolding build_checkpoint_resume_plan
build_checkpoint_resume_plan-advance_run run jobs packages t n w dead open_jobs open_packages
      at_phase there live attempts =
    let named = has_text run.checkpoint t at_phase in
    let action = next_phase-checkpoint_to_action run.checkpoint t at_phase in
    let resumes : may_go_on run.status ≡ true = rw (may_go_on-is_terminal run.status, live) refl in
    let made = advance_run-active_holder run.id run t n w there live at_phase attempts in
    rw (dead, open_jobs, open_packages, named, action) (resumes, made)
