-- ===== src/Tests.antt =====
-- The theorems at concrete inputs.
mod Items
mod Boards
mod Planning
mod Tickets
mod Documents
mod Reminders
mod Desk
mod Registry
mod Access
mod Initiatives
