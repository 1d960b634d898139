-- ===== src/Pipeline/Projects.antt =====
-- dev_orchestrator/v8/pipeline.py: `create_project`, and the lists of projects, runs and jobs of
-- dev_orchestrator/v8/store_memory.py.
use async_native_ai_orchestr.Prelude.{ℕ, String, ◌≡◌, refl, inl, inr, List, some, str_eq, keep}
use async_native_ai_orchestr.Prelude.Dict.{values, get-put_self}
use async_native_ai_orchestr.Result.{Result, ok, err, Result-cases}
use async_native_ai_orchestr.Profiles.{ScaleProfileData}
use async_native_ai_orchestr.Profiles.Attempts.{resolve_target_scale}
use async_native_ai_orchestr.Store.Records.{Project, Run}
use async_native_ai_orchestr.Store.Memory.{InMemoryStore, get_project}
use async_native_ai_orchestr.Store.Memory
use async_native_ai_orchestr.Pipeline.World.{World, M, lift, new_id, time, on_store, ◌>>=◌}

unfoldable pub list_projects : InMemoryStore → String → List Project
list_projects s tenant_id = keep (λ p. str_eq p.tenant_id tenant_id) (values s.projects)

unfoldable pub list_runs : InMemoryStore → String → List Run
list_runs s project_id = keep (λ r. str_eq r.project_id project_id) (values s.runs)

-- The project that `create_project` makes, with its configuration.
abbrev pub new_project :
    (id tenant_id name title description target_scale project_path : String)
    → ScaleProfileData
    → ℕ
    → Project
new_project id tenant_id name title description target_scale project_path profile now = record {
  id = id;
  tenant_id = tenant_id;
  name = name;
  title = title;
  description = description;
  project_path = project_path;
  config = record {
    name = name;
    title = title;
    description = description;
    project_path = project_path;
    target_scale = target_scale;
    scale_profile = some profile;
  };
  status = "active";
  created_at = now;
  updated_at = now;
}

unfoldable pub create_project :
    (tenant_id name title description target_scale project_path : String) → M Project
create_project tenant_id name title description target_scale project_path = do
  profile ← lift (resolve_target_scale target_scale)
  id ← new_id
  now ← time
  let project =
      new_project id tenant_id name title description target_scale project_path profile now
  on_store (λ _. λ s. (project, Memory.create_project s project))

-- The end of `create_project`: it raises for a scale that is not known, and the store is as it was; or it
-- answers with a project that the store then holds, of that tenant, with the profile of the scale.
abbrev pub Created : String → String → World → Result Project × World → Type 0
Created tenant_id target_scale w (err e, w') =
    (resolve_target_scale target_scale ≡ err e) × (w'.store ≡ w.store)
Created tenant_id target_scale w (ok p, w') =
    (profile : ScaleProfileData) × (resolve_target_scale target_scale ≡ ok profile)
    × (p.config.scale_profile ≡ some profile)
    × (p.tenant_id ≡ tenant_id)
    × (get_project w'.store p.id ≡ some p)

-- `create_project` raises the error of the scale and leaves the store as it was; or the scale is known, and
-- the project it answers with is of the tenant, has the profile of the scale, and is in the store.
pub create_project-Created :
    (tenant_id name title description target_scale project_path : String) (w : World)
    → Created tenant_id target_scale w
        (create_project tenant_id name title description target_scale project_path w)
unfolding create_project get_project Memory.create_project
create_project-Created tenant_id name title description target_scale project_path w =
    elim (Result-cases (resolve_target_scale target_scale)) [
      | inr (e, failed) ↦ rw failed (failed, refl)
      | inl (p, known) ↦
          let id = w.mint w.minted in
          let project =
            new_project id tenant_id name title description target_scale project_path p w.now in
          rw known (p, known, refl, refl, get-put_self id project w.store.projects)
    ]
