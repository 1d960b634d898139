-- ===== src/Postgres.antt =====
-- dev_orchestrator/v8/store_pg.py: the store on PostgreSQL. A table is an association list by primary
-- key; a row is the record that `_row_to_…` makes of it. Each method is one transaction, taken here as
-- one step, but for those of `acquire_ai_slot`; the rows are read in the order of the list where a query states no order.
pub mod Jobs
pub mod Slots
pub mod Tables
