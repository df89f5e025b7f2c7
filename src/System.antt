-- ===== src/System.antt =====
-- backend/app/models/system_manager.py: the registries, and the refresh of the data.
pub mod Rate
pub mod Sets
pub mod Schedule
pub mod Files
pub mod Refresh
mod Examples
