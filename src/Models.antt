-- ===== src/Models.antt =====
-- dev_orchestrator/v8/models.py: the enumerations of the domain. The records that a component
-- keeps stand in that component's modules.
pub mod Status
pub mod Kind
