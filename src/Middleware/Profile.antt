-- ===== src/Middleware/Profile.antt =====
-- be/ocpp/services/ocpp/core/boot_notification.py and status_notification.py: what a charge point
-- says of itself is written to its row.
use levity.Prelude.{ℕ, some, pos}
use levity.Dict.{get, subscript}
use levity.Middleware.Base.{update_data, member}
use levity.Models.Exchange.{Handler, OcppRequest}
use levity.Models.World.{Exec, lift, ◌>>=◌, ◌>>◌}
use levity.Objects.Effects.{utc_now}
use levity.Objects.Transactions.{save_charge_point}
use levity.Platform.{Platform}
use levity.Types.Registration.{registration_status_value, accepted}
use levity.Types.Status.{parse_charge_point_status}
use levity.Value.{null, num, str, datetime, Fields, end, field, or_else}

-- settings.OCPP_HEARTBEAT_INTERVAL
abbrev pub heartbeat_interval : ℕ
heartbeat_interval = 3600

-- The answer of boot_notification.py.
unfoldable pub boot_answer : ℕ → Fields
boot_answer now = field "currentTime" (datetime now) (
    field "interval" (num (pos heartbeat_interval) 0)
      (field "status" (member (registration_status_value accepted)) end))

module _ ⦃p : Platform⦄ where
  unfoldable pub save_hardware : OcppRequest → Exec (Unit {0})
  save_hardware req = do
    let content = req.message.content
    firmware ← lift (get content "firmwareVersion" (str ""))
    model ← lift (get content "chargePointModel" (str ""))
    vendor ← lift (get content "chargePointVendor" (str ""))
    serial ← lift (get content "chargePointSerialNumber" (str ""))
    iccid ← lift (get content "iccid" (str ""))
    imsi ← lift (get content "imsi" (str ""))
    now ← utc_now
    hw_firmware ← lift (p.char_field 256 firmware)
    hw_model ← lift (p.char_field 256 model)
    hw_vendor ← lift (p.char_field 256 vendor)
    hw_serial ← lift (p.char_field 256 serial)
    hw_iccid ← lift (p.char_field 256 iccid)
    hw_imsi ← lift (p.char_field 256 imsi)
    save_charge_point req.charge_point.id (λ row. record row {
      hw_firmware = hw_firmware;
      hw_model = hw_model;
      hw_vendor = hw_vendor;
      hw_serial = hw_serial;
      last_boot_at = some now;
      hw_iccid = hw_iccid;
      hw_imsi = hw_imsi;
    })

  unfoldable pub handle_boot_notification : Handler → Handler
  handle_boot_notification next req = do
    save_hardware req
    res ← next req
    now ← utc_now
    update_data res (boot_answer now)

  unfoldable pub save_status : OcppRequest → Exec (Unit {0})
  save_status req = do
    let content = req.message.content
    given ← lift (subscript content "status")
    status ← lift (parse_charge_point_status given)
    code ← lift (get content "vendorErrorCode" null)
    info ← lift (get content "info" null)
    vendor ← lift (get content "vendorId" null)
    vendor_error_code ← lift (p.char_field 64 (or_else code (str "")))
    vendor_status_info ← lift (p.char_field 64 (or_else info (str "")))
    vendor_status_id ← lift (p.char_field 255 (or_else vendor (str "")))
    save_charge_point req.charge_point.id (λ row. record row {
      status = some status;
      vendor_error_code = vendor_error_code;
      vendor_status_info = vendor_status_info;
      vendor_status_id = vendor_status_id;
    })

  unfoldable pub handle_status_notification : Handler → Handler
  handle_status_notification next req = do save_status req; next req
