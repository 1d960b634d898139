-- ===== src/Postgres/Slots/Tests.antt =====
-- dev_orchestrator/v8/store_pg.py: examples of slots.
use async_native_ai_orchestr.Prelude.{◌+◌, ◌≡◌, refl, true, List, [], ◌∷◌, arith, is_some}
use async_native_ai_orchestr.Prelude.Dict.{Dict, put}
use async_native_ai_orchestr.Store.Jobs.{seconds}
use async_native_ai_orchestr.Store.Records.{AiSlot}
use async_native_ai_orchestr.Postgres.Slots.{
  SlotRequest, Round, Overlap, alone, acquire_round, acquire_ai_slot, count_slots, slot_for,
  expire_stale, of_provider,
}
use async_native_ai_orchestr.Postgres.Slots.Limits.{
  SlotOp, acquires, releases, run, IsWithinLimits, run-IsWithinLimits,
}
use async_native_ai_orchestr.Postgres.Slots.Waiting.{
  IsOutcome, acquire_ai_slot-IsOutcome, acquire_ai_slot-is_some,
}

abbrev request : SlotRequest
request = record {
  tenant_id = "t";
  run_id = "r";
  provider = "openai";
  agent_run_id = "a";
  task_kind = "plan";
  provider_limit = 1;
  run_limit = 0;
  wait_seconds = 1;
  lease_seconds = 60;
}

abbrev slot_ops : List SlotOp
slot_ops = acquires request "s" 10 ∷ acquires request "u" 20 ∷ releases "s" 30 ∷ []

empty-IsWithinLimits : IsWithinLimits 1 0 []
unfolding count_slots
empty-IsWithinLimits = record { providers = λ p. omega arith; runs = λ i. omega arith }

run-IsWithinLimits_example : IsWithinLimits 1 0 (run [] slot_ops)
run-IsWithinLimits_example =
    run-IsWithinLimits 1 0 [] slot_ops empty-IsWithinLimits ((refl, refl), ((refl, refl), (tt, tt)))

-- One slot is held, and it is released while the loop sleeps after its first round.
abbrev rounds : List Round
rounds =
    record { now = 20; monotonic = 20; slot_id = "u"; overlap = alone; others = λ m. [] }
    ∷ record { now = 2000000; monotonic = 2000000; slot_id = "v"; overlap = alone; others = λ m. m }
    ∷ []

abbrev one_slot : Dict AiSlot
one_slot = ("s", slot_for request "s" 10) ∷ []

acquire_ai_slot-is_some_example : is_some (acquire_ai_slot request 0 rounds one_slot).0 ≡ true
acquire_ai_slot-is_some_example = acquire_ai_slot-is_some request 0 rounds one_slot refl

acquire_ai_slot-IsOutcome_example :
    IsOutcome request (0 + seconds 1) rounds one_slot (acquire_ai_slot request 0 rounds one_slot)
acquire_ai_slot-IsOutcome_example = acquire_ai_slot-IsOutcome request 0 rounds one_slot

-- Another transaction that commits after the counts: together they give out one slot more than the limit.
abbrev other_commits : Overlap
other_commits = record alone { after_counts = λ m. put "s" (slot_for request "s" 10) m }

overlapping_count :
    count_slots (of_provider "openai") (acquire_round request "u" 10 other_commits []).1 ≡ 2
unfolding count_slots put acquire_round expire_stale
overlapping_count = refl
