-- ===== src/Inventory.antt =====
-- frontend/src/app/workflows/page.tsx: the inventory of workflows, where requests are started, and
-- where an administrator may define a workflow as JSON text.
pub mod Blueprint
pub mod Page
pub mod View
pub mod Editing
mod Tests
