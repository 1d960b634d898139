-- ===== src/Store/Shelves.antt =====
-- dev_orchestrator/v8/store_memory.py: the slots of AI calls, the artifacts, the agent runs and the list
-- of events.
pub mod Slots
mod Tests
use async_native_ai_orchestr.Prelude.{
  ℕ, ◌+◌, String, Bool, true, false, List, [], ◌∷◌, Option, none, some, str_eq, keep, first, leb,
  ◌&&◌, if◌then◌else◌,
}
use async_native_ai_orchestr.Prelude.Dict.{Dict, get, put, values}
use async_native_ai_orchestr.Store.Jobs.{seconds}
use async_native_ai_orchestr.Store.Records.{
  AiSlot, SlotStatus, active, released, expired, Artifact, AgentRun, Event,
}
use async_native_ai_orchestr.Store.Memory.{InMemoryStore}

abbrev pub is_active_slot : SlotStatus → Bool
is_active_slot active = true
is_active_slot _ = false

-- The slot that `acquire_ai_slot` makes, under the identifier `id`.
abbrev pub new_slot :
    (id tenant_id run_id provider agent_run_id task_kind : String)
    → (lease_seconds now : ℕ) → AiSlot
new_slot id tenant_id run_id provider agent_run_id task_kind lease_seconds now = record {
  id = id;
  tenant_id = tenant_id;
  run_id = run_id;
  provider = provider;
  agent_run_id = agent_run_id;
  task_kind = task_kind;
  status = active;
  acquired_at = now;
  lease_until = now + seconds lease_seconds;
  released_at = none;
}

-- The limits and the waiting time are arguments that the method does not use.
unfoldable pub acquire_ai_slot :
    InMemoryStore
    → (id tenant_id run_id provider agent_run_id task_kind : String)
    → (provider_limit run_limit wait_seconds lease_seconds now : ℕ) → AiSlot × InMemoryStore
acquire_ai_slot s id tenant_id run_id provider agent_run_id task_kind provider_limit run_limit
      wait_seconds lease_seconds now =
    let slot = new_slot id tenant_id run_id provider agent_run_id task_kind lease_seconds now in
    (slot, record s { ai_slots = put slot.id slot s.ai_slots })

unfoldable pub release_ai_slot : InMemoryStore → String → ℕ → InMemoryStore
release_ai_slot s slot_id now = elim (get slot_id s.ai_slots) [
  | none ↦ s
  | some slot ↦ record s {
    ai_slots = put slot_id (record slot { status = released; released_at = some now }) s.ai_slots;
  }
]

abbrev pub of_run : Option String → String → Bool
of_run none run_id = true
of_run (some i) run_id = str_eq run_id i

unfoldable pub list_active_ai_slots : InMemoryStore → Option String → List AiSlot
list_active_ai_slots s run_id =
    keep (λ x. of_run run_id x.run_id) (keep (λ x. is_active_slot x.status) (values s.ai_slots))

unfoldable pub add_artifact : InMemoryStore → Artifact → InMemoryStore
add_artifact s a = record s { artifacts = put a.id a s.artifacts }

unfoldable pub list_artifacts : InMemoryStore → String → Option String → List Artifact
list_artifacts s run_id kind =
    keep (λ a. of_run kind a.kind) (keep (λ a. str_eq a.run_id run_id) (values s.artifacts))

abbrev pub is_artifact : (run_id kind key : String) → Artifact → Bool
is_artifact run_id kind key a = str_eq a.run_id run_id && (str_eq a.kind kind && str_eq a.key key)

unfoldable pub get_artifact : InMemoryStore → (run_id kind key : String) → Option Artifact
get_artifact s run_id kind key = first (is_artifact run_id kind key) (values s.artifacts)

unfoldable pub record_agent_run : InMemoryStore → AgentRun → InMemoryStore
record_agent_run s a = record s { agent_runs = put a.id a s.agent_runs }

unfoldable pub list_agent_runs : InMemoryStore → String → List AgentRun
list_agent_runs s run_id = keep (λ a. str_eq a.run_id run_id) (values s.agent_runs)

-- `ar.contract_ok is False`
abbrev pub is_violation : Option Bool → Bool
is_violation (some false) = true
is_violation _ = false

unfoldable pub list_contract_violations : InMemoryStore → String → List AgentRun
list_contract_violations s run_id =
    keep (λ a. str_eq a.run_id run_id && is_violation a.contract_ok) (values s.agent_runs)

-- `sorted(evts, key=lambda e: e.sequence)`
unfoldable pub insert_event : Event → List Event → List Event
insert_event e [] = e ∷ []
insert_event e (f ∷ fs) = if leb e.sequence f.sequence then e ∷ f ∷ fs else f ∷ insert_event e fs

unfoldable pub sort_events : List Event → List Event
sort_events [] = []
sort_events (e ∷ es) = insert_event e (sort_events es)

unfoldable pub list_events : InMemoryStore → String → Option String → List Event
list_events s run_id event_type = sort_events (
    keep (λ e. of_run event_type e.event_type)
      (keep (λ e. str_eq e.run_id run_id) (values s.events)))
