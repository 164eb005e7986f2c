-- ===== src/Admin.antt =====
-- The administration pages: frontend/src/admin/modules.
pub mod Trips
pub mod Users
pub mod Gateway
pub mod Weeks
pub mod Selection
pub mod TripForm
pub mod Ledger
pub mod Tickets
pub mod Paging
pub mod UserForm
pub mod AuditLogs
pub mod Settings
pub mod System
pub mod History
