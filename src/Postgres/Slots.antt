-- ===== src/Postgres/Slots.antt =====
-- dev_orchestrator/v8/store_pg.py: the table `ai_slots` and the methods on it. The statements of a
-- transaction of `acquire_ai_slot` may see what others commit between them.
pub mod Limits
pub mod Waiting
mod Tests
use async_native_ai_orchestr.Prelude.{
  ℕ, ◌+◌, max, String, Bool, true, false, ◌&&◌, List, [], ◌∷◌, Option, none, some, ltb, leb, str_eq,
  keep, length, if◌then◌else◌,
}
use async_native_ai_orchestr.Prelude.Dict.{Dict, get, put, values}
use async_native_ai_orchestr.Result.{Result, ok, err, Error, other_error}
use async_native_ai_orchestr.Store.Jobs.{seconds}
use async_native_ai_orchestr.Store.Records.{AiSlot, SlotStatus, active, released, expired}
use async_native_ai_orchestr.Store.Shelves.{is_active_slot, new_slot}

-- The keyword arguments of `acquire_ai_slot`.
pub record SlotRequest : Type 0 where
  pub tenant_id : String
  pub run_id : String
  pub provider : String
  pub agent_run_id : String
  pub task_kind : String
  pub provider_limit : ℕ
  pub run_limit : ℕ
  pub wait_seconds : ℕ
  pub lease_seconds : ℕ

abbrev pub is_stale : ℕ → AiSlot → Bool
is_stale now s = is_active_slot s.status && ltb s.lease_until now

abbrev pub expire : ℕ → AiSlot → AiSlot
expire now s = record s { status = expired; released_at = some now }

-- `UPDATE ai_slots SET status='expired' … WHERE status='active' AND lease_until < now`
unfoldable pub expire_stale : ℕ → Dict AiSlot → Dict AiSlot
expire_stale now [] = []
expire_stale now ((k, s) ∷ m) = (k, if is_stale now s then expire now s else s) ∷ expire_stale now m

abbrev pub of_provider : String → AiSlot → Bool
of_provider provider s = str_eq s.provider provider && is_active_slot s.status

abbrev pub of_run : String → AiSlot → Bool
of_run run_id s = str_eq s.run_id run_id && is_active_slot s.status

-- `SELECT COUNT(*) FROM ai_slots WHERE …`
unfoldable pub count_slots : (AiSlot → Bool) → Dict AiSlot → ℕ
count_slots p [] = 0
count_slots p ((k, s) ∷ m) = let rest = count_slots p m in if p s then rest + 1 else rest

-- The two counts, each of the table that its statement sees.
abbrev pub has_room_in : SlotRequest → (at_provider at_run : Dict AiSlot) → Bool
has_room_in q at_provider at_run =
    ltb (count_slots (of_provider q.provider) at_provider) (max 1 q.provider_limit)
    && ltb (count_slots (of_run q.run_id) at_run) (max 1 q.run_limit)

abbrev pub has_room : SlotRequest → Dict AiSlot → Bool
has_room q m = has_room_in q m m

abbrev pub slot_for : SlotRequest → (slot_id : String) → ℕ → AiSlot
slot_for q slot_id now =
    new_slot slot_id q.tenant_id q.run_id q.provider q.agent_run_id q.task_kind
      (max 30 q.lease_seconds) now

-- No lock is taken, and each statement sees what is committed before it: what all others commit before
-- the first count, between the counts, and after them, before the insertion or the end of the transaction.
pub record Overlap : Type 0 where
  pub before_counts : Dict AiSlot → Dict AiSlot
  pub between_counts : Dict AiSlot → Dict AiSlot
  pub after_counts : Dict AiSlot → Dict AiSlot

abbrev pub at_provider_count : (now : ℕ) → Overlap → Dict AiSlot → Dict AiSlot
at_provider_count now o m = o.before_counts (expire_stale now m)

abbrev pub at_run_count : (now : ℕ) → Overlap → Dict AiSlot → Dict AiSlot
at_run_count now o m = o.between_counts (at_provider_count now o m)

abbrev pub at_insert : (now : ℕ) → Overlap → Dict AiSlot → Dict AiSlot
at_insert now o m = o.after_counts (at_run_count now o m)

-- One transaction of the loop.
unfoldable pub acquire_round :
    SlotRequest → (slot_id : String) → ℕ → Overlap → Dict AiSlot → Option AiSlot × Dict AiSlot
acquire_round q slot_id now o m =
    let slot = slot_for q slot_id now in
    let m' = at_insert now o m in
    if has_room_in q (at_provider_count now o m) (at_run_count now o m)
    then (some slot, put slot_id slot m')
    else (none, m')

-- Nothing else is committed during the transaction.
abbrev pub alone : Overlap
alone = record { before_counts = λ m. m; between_counts = λ m. m; after_counts = λ m. m }

-- What one round of the loop meets: the two clocks, the identifier that `new_id` would give, and what
-- all others do to the table during the transaction and during the sleep.
pub record Round : Type 0 where
  pub now : ℕ
  pub monotonic : ℕ
  pub slot_id : String
  pub overlap : Overlap
  pub others : Dict AiSlot → Dict AiSlot

abbrev pub timed_out : Error
timed_out = other_error "AI concurrency slot wait timed out"

-- The loop, over the rounds that there is time for: no result while it still waits.
unfoldable pub wait_for_slot :
    SlotRequest → (deadline : ℕ) → List Round → Dict AiSlot → Option (Result AiSlot) × Dict AiSlot
wait_for_slot q deadline [] m = (none, m)
wait_for_slot q deadline (r ∷ rs) m =
    let (found, m') = acquire_round q r.slot_id r.now r.overlap m in
    let rest = wait_for_slot q deadline rs (r.others m') in
    elim found [
      | some slot ↦ (some (ok slot), m')
      | none ↦ if leb deadline r.monotonic then (some (err timed_out), m') else rest
    ]

-- `start` is the reading of the monotonic clock before the loop.
unfoldable pub acquire_ai_slot :
    SlotRequest → (start : ℕ) → List Round → Dict AiSlot → Option (Result AiSlot) × Dict AiSlot
acquire_ai_slot q start rounds m = wait_for_slot q (start + seconds q.wait_seconds) rounds m

unfoldable pub release_ai_slot : String → ℕ → Dict AiSlot → Dict AiSlot
release_ai_slot slot_id now m = elim (get slot_id m) [
  | none ↦ m
  | some s ↦ put slot_id (record s { status = released; released_at = some now }) m
]

-- An empty `run_id` asks for no condition.
unfoldable pub list_active_ai_slots : String → Dict AiSlot → List AiSlot
list_active_ai_slots run_id m =
    let rows = keep (λ s. is_active_slot s.status) (values m) in
    if str_eq run_id "" then rows else keep (λ s. str_eq s.run_id run_id) rows
