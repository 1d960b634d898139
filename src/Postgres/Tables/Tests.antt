-- ===== src/Postgres/Tables/Tests.antt =====
-- dev_orchestrator/v8/store_pg.py: examples of rows that are written and read back.
use async_native_ai_orchestr.Prelude.{String, ◌≡◌, refl, List, [], ◌∷◌}
use async_native_ai_orchestr.Store.Records.{Artifact}
use async_native_ai_orchestr.Postgres.Tables.{
  add_artifact, list_artifacts, stamped, upsert, order_by, insert_by,
}
use async_native_ai_orchestr.Postgres.Tables.Upserts.{IsStored, add_artifact-IsStored}

abbrev plan : (id content : String) → Artifact
plan id content = record {
  id = id;
  tenant_id = "";
  project_id = "";
  run_id = "r";
  job_id = "j";
  kind = "plan";
  key = "main";
  content_type = "text";
  content = content;
  created_at = 0;
}

abbrev one_plan : List Artifact
one_plan = stamped "t" "p" 5 (plan "a" "old") ∷ []

add_artifact-IsStored_example :
    IsStored
      ("r" ∷ [])
      (stamped "t" "p" 9 (plan "b" "new"))
      one_plan
      (add_artifact "t" "p" ("r" ∷ []) (plan "b" "new") 9 one_plan)
add_artifact-IsStored_example = add_artifact-IsStored "t" "p" ("r" ∷ []) (plan "b" "new") 9 one_plan

-- The row keeps its identifier and its time, which are not those of the artifact that is returned.
renewed_plan :
    list_artifacts "r" "" (add_artifact "t" "p" ("r" ∷ []) (plan "b" "new") 9 one_plan).1
    ≡ stamped "t" "p" 5 (plan "a" "new") ∷ []
unfolding add_artifact list_artifacts upsert order_by insert_by
renewed_plan = refl
