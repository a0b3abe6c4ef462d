-- ===== src/Gateway.antt =====
-- The websocket server, ws/src/levity_ws.
pub mod State
pub mod Client
pub mod Server
pub mod Commands
pub mod Sessions
pub mod Ordered
pub mod Process
