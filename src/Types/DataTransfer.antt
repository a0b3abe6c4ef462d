-- ===== src/Types/DataTransfer.antt =====
-- be/ocpp/types/data_transfer_status.py
use levity.Prelude.{String, List, [], ◌∷◌, ◌≡◌, refl}
use levity.Types.Error.{Result, ok}
use levity.Types.ModelEnum.{of_value}
use levity.Value.{Value, str}

pub data DataTransferStatus : Type 0 where
  accepted rejected unknown_message_id unknown_vendor_id : DataTransferStatus

unfoldable pub data_transfer_status_value : DataTransferStatus → String
data_transfer_status_value accepted = "Accepted"
data_transfer_status_value rejected = "Rejected"
data_transfer_status_value unknown_message_id = "UnknownMessageId"
data_transfer_status_value unknown_vendor_id = "UnknownVendorId"

unfoldable pub data_transfer_status_members : List DataTransferStatus
data_transfer_status_members = accepted ∷ rejected ∷ unknown_message_id ∷ unknown_vendor_id ∷ []

-- `DataTransferStatus(v)`
unfoldable pub parse_data_transfer_status : Value → Result DataTransferStatus
unfolding of_value data_transfer_status_value data_transfer_status_members
parse_data_transfer_status = of_value data_transfer_status_value data_transfer_status_members

-- Every member is found again by its value.
pub parse-value_data_transfer_status :
    (a : DataTransferStatus)
    → parse_data_transfer_status (str (data_transfer_status_value a)) ≡ ok a
unfolding parse_data_transfer_status
parse-value_data_transfer_status accepted = refl
parse-value_data_transfer_status rejected = refl
parse-value_data_transfer_status unknown_message_id = refl
parse-value_data_transfer_status unknown_vendor_id = refl
