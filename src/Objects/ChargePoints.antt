-- ===== src/Objects/ChargePoints.antt =====
-- be/ocpp/models/charge_point.py and websocket_event.py: the registration of a charge point by its
-- first event, and the record of its connections.
use levity.Prelude.{ℕ, String, true, false, none}
use levity.Types.Action.{WebsocketEventType}
use levity.Models.Rows.{ChargePoint, WebsocketEvent}
use levity.Models.World.{Exec, done, created, lift, ◌>>=◌}
use levity.Platform.{Platform}
use levity.Receivers.{post_save_websocket_event}
use levity.Value.{Value}

-- A row with the columns' defaults.
abbrev pub new_charge_point : String → String → ChargePoint
new_charge_point id ws_queue = record {
  id = id;
  name = "";
  status = none;
  error_code = none;
  is_connected = false;
  vendor_error_code = "";
  vendor_status_info = "";
  vendor_status_id = "";
  ws_queue = ws_queue;
  hw_vendor = "";
  hw_model = "";
  hw_serial = "";
  hw_firmware = "";
  hw_iccid = "";
  hw_imsi = "";
  last_heartbeat_at = none;
  last_boot_at = none;
  last_connect_at = none;
  last_tx_start_at = none;
  last_tx_stop_at = none;
}

module _ ⦃p : Platform⦄ where
  -- `ChargePoint.objects.update_or_create(id=…, defaults=…)`
  unfoldable pub upsert_charge_point : String → String → Exec ChargePoint
  upsert_charge_point id ws_queue w =
      let (row, rows) =
        p.charge_point_table.update_or_create id (λ r. record r { ws_queue = ws_queue })
          (new_charge_point id ws_queue) w.charge_points in
      done row (record w { charge_points = rows })

  unfoldable pub update_or_create_charge_point : Value → Value → Exec ChargePoint
  update_or_create_charge_point charge_point_id ws_queue = do
    id ← lift (p.char_field 128 charge_point_id)
    queue ← lift (p.char_field 256 ws_queue)
    upsert_charge_point id queue

  -- `WebsocketEvent.objects.create(…)`
  unfoldable pub insert_websocket_event : WebsocketEvent → Exec WebsocketEvent
  insert_websocket_event e w =
      created (λ rows. record w { websocket_events = rows }) w
        (p.websocket_event_table.create e w.websocket_events)

  unfoldable pub create_websocket_event : String → ℕ → WebsocketEventType → Exec (Unit {0})
  create_websocket_event charge_point timestamp type = do
    row ←
        insert_websocket_event
          (record { id = 0; charge_point = charge_point; type = type; timestamp = timestamp })
    post_save_websocket_event row true
