-- ===== src/Management.antt =====
-- The commands of be/ocpp/management/commands that read and correct what was metered.
pub mod Reporting
pub mod Corrections
pub mod Report
