-- ===== src/Pipeline/Waves.antt =====
-- dev_orchestrator/v8/pipeline.py: `_advance_wave_execution`.
use async_native_ai_orchestr.Prelude.{
  Bool, true, false, not, ◌&&◌, ◌||◌, List, [], ◌∷◌, Option, none, some, str_eq, leb, if◌then◌else◌,
  any, all, keep,
}
use async_native_ai_orchestr.Prelude.Dict.{Dict, get, put}
use async_native_ai_orchestr.Models.Status.{JobStatus, queued, leased, running, retry, is_completed}
use async_native_ai_orchestr.Store.Jobs.{Job}
use async_native_ai_orchestr.Store.Records.{Run, Wave, WorkPackage, continue_with}
use async_native_ai_orchestr.Store.Memory.{list_waves, list_work_packages, list_jobs, upsert_wave}
use async_native_ai_orchestr.Pipeline.World.{M, pure, asks, modify, ◌>>=◌, ◌>>◌}
use async_native_ai_orchestr.Pipeline.State.{update_run_state, set_checkpoint, opt_eq}
use async_native_ai_orchestr.Pipeline.Enqueue.{enqueue_package_job}

-- `sorted(waves, key=lambda w: w.sequence)`, which is stable.
unfoldable pub insert_wave : Wave → List Wave → List Wave
insert_wave w [] = w ∷ []
insert_wave w (v ∷ vs) = if leb w.sequence v.sequence then w ∷ v ∷ vs else v ∷ insert_wave w vs

unfoldable pub sort_waves : List Wave → List Wave
sort_waves [] = []
sort_waves (w ∷ ws) = insert_wave w (sort_waves ws)

-- `{p.package_key: p for p in packages}`, from a table that is filled already.
unfoldable pub by_key : Dict WorkPackage → List WorkPackage → Dict WorkPackage
by_key d [] = d
by_key d (p ∷ ps) = by_key (put p.package_key p d) ps

-- `j.status in (queued, leased, running, retry)`
abbrev pub is_pending : JobStatus → Bool
is_pending queued = true
is_pending leased = true
is_pending running = true
is_pending retry = true
is_pending _ = false

abbrev pub already_queued : WorkPackage → List Job → Bool
already_queued p jobs = any (λ j. opt_eq j.work_package_id (some p.id) && is_pending j.status) jobs

abbrev pub dependency_done : Wave → Option WorkPackage → Bool
dependency_done wave none = true
dependency_done wave (some q) = not (str_eq q.wave_id wave.id) || is_completed q.status

abbrev pub deps_satisfied : Wave → Dict WorkPackage → WorkPackage → Bool
deps_satisfied wave table p = all (λ d. dependency_done wave (get d table)) p.depends_on

-- A package for which the loop makes a job.
abbrev pub is_ready : Wave → Dict WorkPackage → List Job → WorkPackage → Bool
is_ready wave table jobs p =
    not (is_completed p.status) && (not (already_queued p jobs) && deps_satisfied wave table p)

-- The loop over the packages of a wave; the answer is `enqueued_any`.
unfoldable pub queue_packages : Run → Wave → Dict WorkPackage → List Job → List WorkPackage → M Bool
queue_packages run wave table jobs [] = pure false
queue_packages run wave table jobs (p ∷ ps) =
    let others = queue_packages run wave table jobs ps in
    if is_ready wave table jobs p
    then (do enqueue_package_job run wave p; others; pure true)
    else others

-- `Wave(id=…, run_id=…, wave_key=…, sequence=…, status="running")`
abbrev pub running_wave : Run → Wave → Wave
running_wave run wave = record wave { run_id = run.id; status = "running" }

unfoldable pub mark_queued : Run → Wave → Bool → M (Unit {0})
mark_queued run wave false = pure tt
mark_queued run wave true = do
  modify (λ s. upsert_wave s (running_wave run wave))
  update_run_state run.id (record (set_checkpoint "wave_queued") {
    continuation = some (continue_with "wave_execution" "wave_queued" (some wave.wave_key));
  })

-- The body of the loop over waves, for the first wave that has a package which is not completed.
unfoldable pub queue_wave : Run → List WorkPackage → Wave → List WorkPackage → M (Unit {0})
queue_wave run packages wave wave_packages = do
  jobs ← asks (λ s. list_jobs s run.id)
  any_queued ← queue_packages run wave (by_key [] packages) jobs wave_packages
  mark_queued run wave any_queued

abbrev pub packages_of : Wave → List WorkPackage → List WorkPackage
packages_of wave packages = keep (λ p. str_eq p.wave_id wave.id) packages

-- `not wave_packages` or all of them completed
abbrev pub wave_done : List WorkPackage → Bool
wave_done ps = all (λ p. is_completed p.status) ps

unfoldable pub complete_waves : Run → M (Unit {0})
complete_waves run = update_run_state run.id (record (set_checkpoint "wave_completed") {
  continuation = some (continue_with "integration" "wave_completed" none);
})

-- The loop over the sorted waves, and what follows it.
unfoldable pub visit_waves : Run → List WorkPackage → List Wave → M (Unit {0})
visit_waves run packages [] = complete_waves run
visit_waves run packages (w ∷ ws) =
    let rest = visit_waves run packages ws in
    if wave_done (packages_of w packages)
    then rest
    else queue_wave run packages w (packages_of w packages)

-- With no waves at all the source completes the waves too, by the same update.
unfoldable pub advance_wave_execution : Run → M (Unit {0})
advance_wave_execution run = do
  packages ← asks (λ s. list_work_packages s run.id)
  waves ← asks (λ s. list_waves s run.id)
  visit_waves run packages (sort_waves waves)
