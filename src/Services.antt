-- ===== src/Services.antt =====
-- be/ocpp/services and be/ocpp/utils/settings.py: from a delivery of the broker to the tables and
-- the answers.
pub mod Settings
pub mod CallHandler
pub mod ResultHandler
pub mod Events
pub mod Consumer
