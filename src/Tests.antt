-- ===== src/Tests.antt =====
-- Runs of the backend on the platform in memory, and the theorems at concrete inputs.
pub mod Samples
pub mod Witnesses
pub mod Sockets
mod Wire
mod Commands
mod Rounds
pub mod Starts
mod Arrivals
mod Journey
mod Interleaved
mod Ending
mod Tables
mod Stops
mod Publishing
mod Connections
