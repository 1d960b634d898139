-- ===== src/Store/Shelves/Tests.antt =====
-- dev_orchestrator/v8/store_memory.py: examples of slots.
use async_native_ai_orchestr.Prelude.{◌≡◌, refl, none, length}
use async_native_ai_orchestr.Prelude.Dict.{put}
use async_native_ai_orchestr.Store.Memory.{InMemoryStore, empty}
use async_native_ai_orchestr.Store.Shelves.{acquire_ai_slot, list_active_ai_slots}

abbrev acquired : InMemoryStore
acquired = (acquire_ai_slot empty "s" "t" "r" "openai" "a" "plan" 0 0 0 60 5).1

-- A slot is given although the limits are 0.
beyond_limits : length (list_active_ai_slots acquired none) ≡ 1
unfolding acquire_ai_slot list_active_ai_slots put
beyond_limits = refl
