-- ===== src/Types.antt =====
-- be/ocpp/types and be/ocpp/utils/model/model_enum.py: the protocol's enumerations.
pub mod Error
pub mod PublishRun
pub mod ModelEnum
pub mod Action
pub mod MessageType
pub mod Status
pub mod Reason
pub mod ErrorCode
pub mod ChargePointError
pub mod Reply
pub mod Registration
pub mod DataTransfer
