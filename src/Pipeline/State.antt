-- ===== src/Pipeline/State.antt =====
-- dev_orchestrator/v8/kernel.py: `build_state_transition_event`, and dev_orchestrator/v8/pipeline.py:
-- `_update_run_state`, which writes a run's state and the event that says so.
use async_native_ai_orchestr.Prelude.{
  String, Bool, true, false, ◌&&◌, List, [], ◌∷◌, ◌++◌, Option, none, some, str_eq, ◌==◌,
  if◌then◌else◌,
}
use async_native_ai_orchestr.Models.Status.{RunStatus}
use async_native_ai_orchestr.Store.Records.{Run, ContinuationState, StateTransition, transition}
use async_native_ai_orchestr.Store.Memory.{RunFields, get_run, update_run, add_event}
use async_native_ai_orchestr.Pipeline.World.{
  M, pure, asks, on_store, try_store, new_id, ◌>>=◌, ◌>>◌,
}

-- `status.value`
abbrev pub run_status_value : RunStatus → String
run_status_value RunStatus.queued = "queued"
run_status_value RunStatus.running = "running"
run_status_value RunStatus.paused = "paused"
run_status_value RunStatus.recovering = "recovering"
run_status_value RunStatus.blocked = "blocked"
run_status_value RunStatus.no_go = "no_go"
run_status_value RunStatus.completed = "completed"
run_status_value RunStatus.cancelled = "cancelled"
run_status_value RunStatus.release_ready = "release_ready"
run_status_value RunStatus.rolled_back = "rolled_back"

abbrev pub opt_eq : Option String → Option String → Bool
opt_eq none none = true
opt_eq (some a) (some b) = str_eq a b
opt_eq _ _ = false

-- Equality of two dumped continuations.
abbrev pub continuation_eq : ContinuationState → ContinuationState → Bool
continuation_eq a b =
    str_eq a.next_action b.next_action
    && (str_eq a.checkpoint b.checkpoint
        && (opt_eq a.current_wave b.current_wave
            && (opt_eq a.current_package b.current_package
                && (str_eq a.failure_reason b.failure_reason
                    && (str_eq a.recovery_state b.recovery_state
                        && (a.repair_attempt == b.repair_attempt))))))

abbrev pub changes : (previous current : Run) → List String
changes p c =
    (if str_eq (run_status_value p.status) (run_status_value c.status) then [] else "status" ∷ [])
    ++ ((if str_eq p.checkpoint c.checkpoint then [] else "checkpoint" ∷ [])
        ++ (if continuation_eq p.continuation c.continuation then [] else "continuation" ∷ []))

abbrev transition_of : (previous current : Run) → List String → StateTransition
transition_of p c changed = record {
  tenant_id = c.tenant_id;
  project_id = c.project_id;
  run_id = c.id;
  status = run_status_value c.status;
  checkpoint = c.checkpoint;
  next_action = c.continuation.next_action;
  previous_status = run_status_value p.status;
  previous_checkpoint = p.checkpoint;
  changed_fields = changed;
}

abbrev unless_empty : (previous current : Run) → List String → Option StateTransition
unless_empty p c [] = none
unless_empty p c (x ∷ xs) = some (transition_of p c (x ∷ xs))

-- For the snapshots of two runs; `_update_run_state` calls it with those of before and after.
unfoldable pub build_state_transition_event : (previous current : Run) → Option StateTransition
build_state_transition_event p c = unless_empty p c (changes p c)

-- The event of a transition, if there is one.
unfoldable pub emit : String → Option StateTransition → M (Unit {0})
emit run_id none = pure tt
emit run_id (some t) = do
  id ← new_id
  on_store (λ now. λ s. add_event s (record {
    id = id;
    tenant_id = t.tenant_id;
    run_id = run_id;
    event_type = "mission_state_changed";
    payload = transition t;
    sequence = 0;
    created_at = now;
  }))
  pure tt

-- At least one field is given in every call, so that a missing run raises in `update_run`. The second
-- `get_run` reads back the run that `update_run` has just stored and returned.
unfoldable pub update_run_state : String → RunFields → M (Unit {0})
update_run_state run_id fields = do
  previous ← asks (λ s. get_run s run_id)
  current ← try_store (λ now. λ s. update_run s run_id fields now)
  elim previous [ none ↦ pure tt | some p ↦ emit run_id (build_state_transition_event p current) ]

abbrev pub no_fields : RunFields
no_fields = record { status = none; checkpoint = none; continuation = none; metadata = none }

abbrev pub set_status : RunStatus → RunFields
set_status s = record no_fields { status = some s }

abbrev pub set_checkpoint : String → RunFields
set_checkpoint c = record no_fields { checkpoint = some c }
