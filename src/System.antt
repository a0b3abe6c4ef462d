-- ===== src/System.antt =====
-- The websocket server, ws/src/levity_ws, and the backend, be/ocpp, with the queues between them.
pub mod Answering
