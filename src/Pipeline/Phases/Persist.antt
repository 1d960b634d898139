-- ===== src/Pipeline/Phases/Persist.antt =====
-- dev_orchestrator/v8/pipeline.py: `_persist_phase_result`, which keeps a phase's output in the run's
-- metadata and may raise the scale of the project. An exception in it is logged and dropped.
use async_native_ai_orchestr.Prelude.{
  String, Bool, ◌||◌, Option, none, some, str_eq, str_append, if◌then◌else◌,
}
use async_native_ai_orchestr.Json.{Json, Fields, null, obj, end, get_field, or_json}
use async_native_ai_orchestr.Result.{Result, ok, err, ◌>>=◌}
use async_native_ai_orchestr.Models.Kind.{
  JobType, requirements_analysis, architecture_design, package_planning,
}
use async_native_ai_orchestr.Profiles.Attempts.{resolve_target_scale}
use async_native_ai_orchestr.ScaleInference.{
  Inference, choose_larger_scale, infer_scale_from_requirements, infer_scale_from_architecture,
  infer_scale_from_package_plan,
}
use async_native_ai_orchestr.Store.Jobs.{Job}
use async_native_ai_orchestr.Store.Records.{Run, RunMetadata}
use async_native_ai_orchestr.Store.Memory.{get_run, update_run}
use async_native_ai_orchestr.Pipeline.World.{World, M, pure, asks, try_store, swallow, and_then}
use async_native_ai_orchestr.Pipeline.World
use async_native_ai_orchestr.Pipeline.State.{no_fields}

-- `_PHASE_METADATA_KEYS`
abbrev pub metadata_key : JobType → Option String
metadata_key requirements_analysis = some "requirements"
metadata_key architecture_design = some "architecture"
metadata_key package_planning = some "package_plan"
metadata_key _ = none

-- The output under the first of the four keys that holds something true, else what the last one holds.
abbrev pub phase_data : String → Fields → Json
phase_data key result = or_json (get_field key result) (
    or_json (get_field (str_append key "_analysis") result)
      (or_json (get_field (str_append key "_design") result) (get_field "package_dag" result)))

-- `metadata.model_copy(update={meta_key: data})`
abbrev pub with_data : JobType → Json → RunMetadata → RunMetadata
with_data requirements_analysis v m = record m { requirements = some v }
with_data architecture_design v m = record m { architecture = some v }
with_data package_planning v m = record m { package_plan = some v }
with_data _ v m = m

-- The inference of the phase, for the phases that have one.
abbrev pub inference_of : JobType → (v layout : Json) → Option (Result Inference)
inference_of requirements_analysis v layout = some (infer_scale_from_requirements v)
inference_of architecture_design v layout = some (infer_scale_from_architecture v layout)
inference_of package_planning v layout = some (infer_scale_from_package_plan v)
inference_of _ v layout = none

-- `scale_profile.name in ("", "auto", "medium")`
abbrev pub is_default_scale : String → Bool
is_default_scale name = str_eq name "" || (str_eq name "auto" || str_eq name "medium")

-- The upgrade to the larger of the current and the inferred scale. The history of inferences is no
-- field of the metadata's model, which drops it when the run is stored.
unfoldable pub upgrade : RunMetadata → Inference → Result RunMetadata
upgrade m inference =
    let current = m.scale_profile.name in
    let upgraded = choose_larger_scale current inference.selected_scale in
    if str_eq upgraded current
    then ok m
    else (resolve_target_scale upgraded >>= λ p. ok (record m { scale_profile = p }))

abbrev pub upgrade_by : RunMetadata → Option (Result Inference) → Result RunMetadata
upgrade_by m none = ok m
upgrade_by m (some r) = r >>= upgrade m

unfoldable pub new_metadata : JobType → (v layout : Json) → RunMetadata → Result RunMetadata
new_metadata t v layout old =
    let m = with_data t v old in
    if is_default_scale old.scale_profile.name then upgrade_by m (inference_of t v layout) else ok m

abbrev pub store_metadata : String → Result RunMetadata → M (Unit {0})
store_metadata run_id (err e) = pure tt
store_metadata run_id (ok m) =
    swallow
      (try_store (λ now. λ s. update_run s run_id (record no_fields { metadata = some m }) now))

abbrev pub persist_run : Job → Fields → Json → Option Run → M (Unit {0})
persist_run job result v none = pure tt
persist_run job result v (some run) = store_metadata job.run_id (
    new_metadata job.job_type v (or_json (get_field "project_layout" result) (obj end))
      run.metadata)

abbrev pub persist_data : Job → Fields → Json → M (Unit {0})
persist_data job result null = pure tt
persist_data job result v =
    World.◌>>=◌ (asks (λ s. get_run s job.run_id)) (persist_run job result v)

abbrev pub persist_key : Job → Fields → Option String → M (Unit {0})
persist_key job result none = pure tt
persist_key job result (some key) = persist_data job result (phase_data key result)

unfoldable pub persist_phase_result : Job → Fields → M (Unit {0})
persist_phase_result job result = persist_key job result (metadata_key job.job_type)
