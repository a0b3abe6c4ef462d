-- ===== src/Logic.antt =====
-- Reasoning about calls: properties of the state that a call keeps, whether it returns or raises.
pub mod Keeps
pub mod Triple
pub mod Total
pub mod Retry
pub mod Leaves
pub mod Handlers
pub mod Requests
