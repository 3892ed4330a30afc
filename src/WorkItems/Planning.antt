-- ===== src/WorkItems/Planning.antt =====
-- src/work-items/work-planning.service.ts: the tables that `WorkPlanningService` writes.
pub mod Dependencies
pub mod Sprints
