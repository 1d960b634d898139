-- ===== src/Store.antt =====
-- dev_orchestrator/v8/store_memory.py: `InMemoryStore`.
pub mod Jobs
pub mod Records
pub mod Memory
pub mod Shelves
