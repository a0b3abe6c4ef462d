-- ===== src/Middleware/Core.antt =====
-- be/ocpp/services/ocpp/core: authorize.py, data_transfer.py, heartbeat.py, and the two status
-- notifications that are answered and otherwise ignored.
use levity.Prelude.{some}
use levity.Middleware.Base.{update_data, member}
use levity.Models.Exchange.{Handler}
use levity.Models.World.{◌>>=◌, ◌>>◌}
use levity.Objects.Effects.{utc_now}
use levity.Objects.Transactions.{save_charge_point}
use levity.Platform.{Platform}
use levity.Types.DataTransfer.{data_transfer_status_value, rejected}
use levity.Types.Reply.{authorization_status_value, accepted}
use levity.Value.{obj, datetime, Fields, entry}

-- `dict(idTagInfo=dict(status=AuthorizationStatus.Accepted))`
unfoldable pub accepted_tag : Fields
accepted_tag =
    entry "idTagInfo" (obj (entry "status" (member (authorization_status_value accepted))))

unfoldable pub handle_authorize : Handler → Handler
handle_authorize next req = do res ← next req; update_data res accepted_tag

unfoldable pub handle_data_transfer : Handler → Handler
handle_data_transfer next req = do
  res ← next req
  update_data res (entry "status" (member (data_transfer_status_value rejected)))

unfoldable pub handle_diagnostics_status_notification : Handler → Handler
handle_diagnostics_status_notification next req = next req

unfoldable pub handle_firmware_status_notification : Handler → Handler
handle_firmware_status_notification next req = next req

module _ ⦃p : Platform⦄ where
  unfoldable pub handle_heartbeat : Handler → Handler
  handle_heartbeat next req = do
    now ← utc_now
    save_charge_point req.charge_point.id (λ row. record row { last_heartbeat_at = some now })
    res ← next req
    later ← utc_now
    update_data res (entry "currentTime" (datetime later))
