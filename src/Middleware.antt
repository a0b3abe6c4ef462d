-- ===== src/Middleware.antt =====
-- be/ocpp/services/ocpp: the middleware classes, each a function from the next handler to its own.
pub mod Base
pub mod Core
pub mod Profile
pub mod Metering
pub mod Orphans
pub mod RemoteStart
pub mod Chain
