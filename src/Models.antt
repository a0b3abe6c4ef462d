-- ===== src/Models.antt =====
-- be/ocpp/models: the rows of the tables, the state of the backend and what a call returns.
pub mod Rows
pub mod World
pub mod Exchange
