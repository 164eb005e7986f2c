-- ===== src/Transport.antt =====
-- The booking of seats: frontend/src/client/modules/transport.
pub mod Data
pub mod Stops
pub mod State
pub mod Store
pub mod Booking
pub mod Page
pub mod Holds
pub mod Details
pub mod Grid
pub mod Card
pub mod OldCard
pub mod Panels
pub mod SummaryTile
mod Tests
