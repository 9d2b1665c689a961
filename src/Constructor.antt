-- ===== src/Constructor.antt =====
-- frontend/src/app/admin/workflows/create/page.tsx: the page on which an administrator defines a
-- workflow, by a wizard of three steps or as JSON text.
pub mod Nodes
pub mod Payload
pub mod Page
pub mod View
pub mod Controls
pub mod Numbering
pub mod Linear
pub mod Reach
pub mod Submitting
pub mod Samples
mod Tests
