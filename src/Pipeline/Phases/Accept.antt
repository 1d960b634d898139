-- ===== src/Pipeline/Phases/Accept.antt =====
-- dev_orchestrator/v8/pipeline.py: what a phase that ends with "ok" leaves of its run.
use async_native_ai_orchestr.Prelude.{
  String, Bool, true, false, ◌≡◌, refl, inl, inr, Option, none, some, str_eq, eq_refl, arith,
  if_both, Option-cases,
}
use async_native_ai_orchestr.Prelude.Dict.{get, put, get-put_self}
use async_native_ai_orchestr.Json.{
  Json, Fields, get_field, null, bool, num, str, arr, obj, or_json, end,
}
use async_native_ai_orchestr.Result.{Result, ok, err}
use async_native_ai_orchestr.Models.Status.{RunStatus}
use async_native_ai_orchestr.Store.Jobs.{Job}
use async_native_ai_orchestr.Store.Records.{Run, RunMetadata, StateTransition}
use async_native_ai_orchestr.Store.Memory.{
  RunFields, get_run, with_fields, revalidated, updated, update_run, update_work_package,
}
use async_native_ai_orchestr.Pipeline.World.{World, M, and_then, ◌>>◌}
use async_native_ai_orchestr.Pipeline.State.{
  update_run_state, emit, set_checkpoint, no_fields, build_state_transition_event,
}
use async_native_ai_orchestr.Pipeline.Advance.Runs.{update_run_state-get_run}
use async_native_ai_orchestr.Pipeline.Phases.{
  accept_result, completed_checkpoint, complete_package, finishes_package,
}
use async_native_ai_orchestr.Pipeline.Phases.Persist.{
  persist_phase_result, persist_key, persist_data, persist_run, store_metadata, metadata_key,
  phase_data, new_metadata,
}

-- A step that ended without an exception and left the run at the checkpoint `c` with the status `s`.
abbrev pub Reached : (i c : String) → RunStatus → Result (Unit {0}) × World → Type 0
Reached i c s r =
    (r.0 ≡ ok tt)
    × ((run : Run) × (get_run r.1.store i ≡ some run) × (run.checkpoint ≡ c) × (run.status ≡ s))

emit-ok : (i : String) (t : Option StateTransition) (w : World) → (emit i t w).0 ≡ ok tt
unfolding emit
emit-ok i none w = refl
emit-ok i (some t) w = refl

module _ (i c : String) (s : RunStatus) where
  then-Reached :
      (n : M (Unit {0})) (r : Result (Unit {0}) × World)
      → Reached i c s r
      → ((w : World) → Reached i c s (ok tt, w) → Reached i c s (n w))
      → Reached i c s (and_then r (λ _. n))
  then-Reached n (ok u, w) h next = next w h
  then-Reached n (err e, w) (h, rest) next = absurd (differ h)
    where
      differ : ◌≡◌ {A = Result (Unit {0})} (err e) (ok tt) → ⊥
      differ h = ground arith

  store_metadata-Reached :
      (m : Result RunMetadata) (w : World)
      → Reached i c s (ok tt, w)
      → Reached i c s (store_metadata i m w)
  unfolding update_run get_run
  store_metadata-Reached (err e) w h = h
  store_metadata-Reached (ok m) w (h, (run, e, at, kept)) =
      let run' = with_fields run (record no_fields { metadata = some m }) w.now in
      (refl, (run', rw (e, update_run) (get-put_self i run' w.store.runs), at, kept))

  complete_package-Reached :
      (b : Bool) (o : Option String) (w : World)
      → Reached i c s (ok tt, w)
      → Reached i c s (complete_package b o w)
  unfolding update_work_package get_run
  complete_package-Reached false o w h = h
  complete_package-Reached true none w h = h
  complete_package-Reached true (some k) w h =
      if_both {A = M (Unit {0})} (λ m. Reached i c s (m w)) (str_eq k "") (λ _. h)
        (λ _. elim (Option-cases (get k w.store.work_packages)) [
          | inl e ↦ rw (e, update_work_package) h
          | inr (p, e) ↦ rw (e, update_work_package) h
        ])

  module _ (job : Job) (result : Fields) (same : job.run_id ≡ i) where
    persist_run-Reached :
        (v : Json) (o : Option Run) (w : World)
        → Reached i c s (ok tt, w)
        → Reached i c s (persist_run job result v o w)
    persist_run-Reached v none w h = h
    persist_run-Reached v (some run) w h = rw same (
        store_metadata-Reached
          (new_metadata job.job_type v (or_json (get_field "project_layout" result) (obj end))
            run.metadata)
          w h)

    persist_data-Reached :
        (v : Json) (w : World)
        → Reached i c s (ok tt, w)
        → Reached i c s (persist_data job result v w)
    persist_data-Reached null w h = h
    persist_data-Reached (bool b) w h =
        persist_run-Reached (bool b) (get_run w.store job.run_id) w h
    persist_data-Reached (num n) w h = persist_run-Reached (num n) (get_run w.store job.run_id) w h
    persist_data-Reached (str t) w h = persist_run-Reached (str t) (get_run w.store job.run_id) w h
    persist_data-Reached (arr t) w h = persist_run-Reached (arr t) (get_run w.store job.run_id) w h
    persist_data-Reached (obj t) w h = persist_run-Reached (obj t) (get_run w.store job.run_id) w h

    persist_key-Reached :
        (k : Option String) (w : World)
        → Reached i c s (ok tt, w)
        → Reached i c s (persist_key job result k w)
    persist_key-Reached none w h = h
    persist_key-Reached (some k) w h = persist_data-Reached (phase_data k result) w h

update_run_state-ok :
    (i : String) (f : RunFields) (run base : Run) (w : World)
    → get_run w.store i ≡ some run
    → revalidated w.store.validate_metadata f run ≡ ok base
    → (update_run_state i f w).0 ≡ ok tt
unfolding update_run_state update_run get_run get
update_run_state-ok i f run base w e valid =
    let run' = with_fields base f w.now in
    rw (e, update_run_state)
      (rw valid (
        emit-ok i (build_state_transition_event run run')
          (record w { store = record w.store { runs = put i run' w.store.runs } })))

-- "ok" from a phase that has a checkpoint, for a run that the store holds and whose metadata validates when
-- the checkpoint is set: no exception comes out of the statements before `advance_run`, whatever the
-- phase's output is (it is not validated before a later update of the run), and the run is at the
-- phase's checkpoint with the status that it had.
pub accept_result-Reached :
    (job : Job) (result : Fields) (run : Run) (m : RunMetadata) (c : String) (w : World)
    → completed_checkpoint job.job_type ≡ some c
    → get_run w.store job.run_id ≡ some run
    → w.store.validate_metadata run.metadata ≡ ok m
    → Reached job.run_id c run.status (accept_result job result w)
unfolding accept_result persist_phase_result
accept_result-Reached job result run m c w checkpoint e valid =
    let i = job.run_id in
    let base = record run { metadata = m } in
    let fits : revalidated w.store.validate_metadata (set_checkpoint c) run ≡ ok base =
      rw valid refl in
    let finish = complete_package (finishes_package job.job_type) job.work_package_id in
    rw (checkpoint, accept_result)
      (then-Reached i c run.status (persist_phase_result job result >> finish)
        (update_run_state i (set_checkpoint c) w)
        (
          update_run_state-ok i (set_checkpoint c) run base w e fits,
          (
            with_fields base (set_checkpoint c) w.now,
            rw (update_run_state-get_run i (set_checkpoint c) w i, eq_refl i, e)
                (rw (fits, updated) refl),
            refl,
            refl,
          ),
        )
        (λ v h.
          then-Reached i c run.status finish (persist_phase_result job result v)
            (persist_key-Reached i c run.status job result refl (metadata_key job.job_type) v h)
            (complete_package-Reached i c run.status (finishes_package job.job_type)
              job.work_package_id)))
