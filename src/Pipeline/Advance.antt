-- ===== src/Pipeline/Advance.antt =====
-- dev_orchestrator/v8/pipeline.py: `advance_run`, the state machine of a run.
pub mod Runs
pub mod Loop
pub mod Progress
use async_native_ai_orchestr.Prelude.{
  ℕ, zero, suc, String, Bool, true, false, not, ◌||◌, List, [], ◌∷◌, Option, none, some, str_eq,
  if◌then◌else◌,
}
use async_native_ai_orchestr.Prelude.Dict.{Dict, get}
use async_native_ai_orchestr.Models.Status.{RunStatus}
use async_native_ai_orchestr.Models.Kind.{
  JobType, requirements_analysis, architecture_design, package_planning, code_review, quality,
  release_candidate, release_notes,
}
use async_native_ai_orchestr.Store.Records.{Run, Wave}
use async_native_ai_orchestr.Store.Memory.{get_run, list_waves, upsert_wave}
use async_native_ai_orchestr.Pipeline.World.{World, M, pure, asks, modify, and_then, ◌>>=◌, ◌>>◌}
use async_native_ai_orchestr.Pipeline.State.{update_run_state, set_status, set_checkpoint}
use async_native_ai_orchestr.Pipeline.Enqueue.{enqueue_phase_job}
use async_native_ai_orchestr.Pipeline.Waves.{advance_wave_execution}

-- `run.status in _TERMINAL_STATUSES`
abbrev pub is_terminal : RunStatus → Bool
is_terminal RunStatus.completed = true
is_terminal RunStatus.cancelled = true
is_terminal RunStatus.release_ready = true
is_terminal RunStatus.rolled_back = true
is_terminal _ = false

-- `checkpoint in ("package_planning_completed", "wave_queued", "package_completed")`
abbrev pub in_waves : String → Bool
in_waves c =
    str_eq c "package_planning_completed"
    || (str_eq c "wave_queued" || str_eq c "package_completed")

-- How the `while` loop ends: the function returns inside it, or the loop is left with a run, or the
-- fuel of the model runs out.
pub data LoopExit : Type 0 where
  returned : LoopExit
  left : Run → LoopExit
  out_of_fuel : LoopExit

-- `if not run or run.checkpoint == checkpoint: return`, with the rest of the loop.
abbrev pub unless_stuck : String → Option Run → (Run → M LoopExit) → M LoopExit
unless_stuck checkpoint none next = pure returned
unless_stuck checkpoint (some run) next =
    if str_eq run.checkpoint checkpoint then pure returned else next run

unfoldable pub wave_loop : ℕ → String → Run → M LoopExit
wave_loop zero run_id run = if in_waves run.checkpoint then pure out_of_fuel else pure (left run)
wave_loop (suc fuel) run_id run =
    let round = (do
      advance_wave_execution run
      next ← asks (λ s. get_run s run_id)
      unless_stuck run.checkpoint next (wave_loop fuel run_id)) in
    if in_waves run.checkpoint then round else pure (left run)

-- `_complete_pending_waves`
abbrev pub completed_wave : String → Wave → Wave
completed_wave run_id w = record w { run_id = run_id; status = "completed" }

unfoldable pub complete_each : String → List Wave → M (Unit {0})
complete_each run_id [] = pure tt
complete_each run_id (w ∷ ws) =
    let rest = complete_each run_id ws in
    if str_eq w.status "completed" || str_eq w.status "done"
    then rest
    else (do modify (λ s. upsert_wave s (completed_wave run_id w)); rest)

unfoldable pub complete_pending_waves : String → M (Unit {0})
complete_pending_waves run_id = do
  waves ← asks (λ s. list_waves s run_id)
  complete_each run_id waves

-- `next_map`
abbrev pub next_phase : Dict JobType
next_phase =
    ("run_created", requirements_analysis)
    ∷ ("requirements_completed", architecture_design)
    ∷ ("architecture_completed", package_planning)
    ∷ ("wave_completed", JobType.integration)
    ∷ ("integration_completed", code_review)
    ∷ ("review_completed", quality)
    ∷ ("quality_completed", release_notes)
    ∷ ("release_notes_completed", release_candidate)
    ∷ []

-- What follows the loop: the release, or the job of the next phase.
unfoldable pub enter_phase : String → Run → M (Unit {0})
enter_phase run_id run =
    if str_eq run.checkpoint "release_candidate_completed"
    then (do
      update_run_state run_id
          (record (set_status RunStatus.release_ready) { checkpoint = some "release_ready" })
      complete_pending_waves run_id)
    else elim (get run.checkpoint next_phase) [
      | none ↦ pure tt
      | some job_type ↦ (do enqueue_phase_job run job_type false; pure tt)
    ]

abbrev pub after_loop : String → LoopExit → M (Unit {0})
after_loop run_id returned = pure tt
after_loop run_id (left run) = enter_phase run_id run
after_loop run_id out_of_fuel = pure tt

-- Three rounds are enough for the loop.
abbrev pub loop_fuel : ℕ
loop_fuel = 3

unfoldable pub advance_run : String → M (Unit {0})
advance_run run_id = do
  found ← asks (λ s. get_run s run_id)
  elim found [
    | none ↦ pure tt
    | some run ↦
        let go = (do exit ← wave_loop loop_fuel run_id run; after_loop run_id exit) in
        if is_terminal run.status then pure tt else go
  ]
