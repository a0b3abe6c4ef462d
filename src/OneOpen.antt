-- ===== src/OneOpen.antt =====
-- The transactions that a charge point has open, over the calls of the backend.
pub mod Rows
pub mod Stopping
pub mod Naming
pub mod Finishing
pub mod Starting
pub mod Saving
pub mod Answering
pub mod Answered
pub mod Opening
pub mod Closing
pub mod Sent
pub mod Arrival
pub mod Events
