-- ===== src/Objects.antt =====
-- be/ocpp/models: what the methods of the model classes do to the tables, receivers included.
pub mod Effects
pub mod Messages
pub mod Transactions
pub mod Meters
pub mod ChargePoints
