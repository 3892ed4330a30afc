-- ===== src/WorkItems.antt =====
-- src/work-items: the taxonomy, the boards, planning and the backlog service.
pub mod Types
pub mod Hierarchy
pub mod Planning
pub mod Service
