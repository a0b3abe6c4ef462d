-- ===== src/Tests/Samples.antt =====
-- Frames, rows and states for the tests and examples.
use levity.Prelude.{if◌then◌else◌}
use levity.Types.PublishRun.{sent_off, not_sent}
use levity.Types.Error.{amqp_error}
use levity.Prelude.{List, String, ℕ, [], ◌∷◌, pos, true, none, some, ltb}
use levity.Memory.{memory}
use levity.Models.Exchange.{
  OcppRequest, MiddlewareClass, orphaned_transaction_middleware, start_transaction_middleware,
}
use levity.Models.Rows.{ChargePoint, Message}
use levity.Models.World.{World}
use levity.Platform.{Platform, missing}
use levity.Types.Action.{Action, charge_point, central_system}
use levity.Types.MessageType.{call, call_result}
use levity.Value.{Value, null, num, str, arr, obj, nil, cons, Fields, end, field}

abbrev pub empty : World
empty = record {
  charge_points = [];
  transactions = [];
  messages = [];
  meter_values = [];
  websocket_events = [];
  counted = [];
  emitted = [];
  printed = [];
  sent = [];
  publish_attempts = 0;
  clock_reads = 0;
  ids_drawn = 0;
}

-- The default settings, and a broker that takes every message.
abbrev pub calm : Platform
calm = memory missing (λ n. sent_off)

-- A broker that refuses the first `k` messages.
abbrev pub flaky : ℕ → Platform
flaky k = memory missing (λ n. if ltb n k then not_sent amqp_error else sent_off)

abbrev pub number : ℕ → Value
number n = num (pos n) 0

abbrev pub event : String → Fields → Value
event type rest =
    obj (field "type" (str type) (field "id" (str "1234") (field "queue" (str "q") rest)))

abbrev pub call_frame : String → String → Fields → Value
call_frame id action content =
    arr (cons (number 2) (cons (str id) (cons (str action) (cons (obj content) nil))))

abbrev pub receive_event : Value → Value
receive_event frame = event "receive" (field "message" frame end)

abbrev pub connect_event : Value
connect_event = event "connect" end

abbrev pub start_content : Fields
start_content =
    field "connectorId" (str "1") (field "idTag" (str "tag") (field "meterStart" (number 100) end))

abbrev pub start_event : String → Value
start_event id = receive_event (call_frame id "StartTransaction" start_content)

abbrev pub station : ChargePoint
station = record {
  id = "1234";
  name = "";
  status = none;
  error_code = none;
  is_connected = true;
  vendor_error_code = "";
  vendor_status_info = "";
  vendor_status_id = "";
  ws_queue = "q";
  hw_vendor = "";
  hw_model = "";
  hw_serial = "";
  hw_firmware = "";
  hw_iccid = "";
  hw_imsi = "";
  last_heartbeat_at = none;
  last_boot_at = none;
  last_connect_at = none;
  last_tx_start_at = none;
  last_tx_stop_at = none;
}

-- A call of the charge point, as `from_occp` stores it.
abbrev pub call_message : Action → Fields → Message
call_message action content = record {
  id = 0;
  charge_point = "1234";
  transaction = none;
  message_type = call;
  unique_id = str "7";
  unique_key = "7";
  actor = charge_point;
  action = some action;
  error_code = none;
  error_description = null;
  content = obj content;
  reply = none;
}

-- The central system's call of the same unique id, and the charge point's answer to it.
abbrev pub central_call : Message
central_call = record (call_message Action.remote_start_transaction end) {
  id = 1;
  actor = central_system;
}

abbrev pub result_message : Message
result_message = record (call_message Action.heartbeat end) {
  id = 2;
  message_type = call_result;
  action = none;
}

abbrev pub request : Action → Fields → OcppRequest
request action content = record {
  message = call_message action content;
  charge_point = station;
  extra = end;
}

-- A charge point that is connected, with a transaction left open.
abbrev pub charging : World
charging = record empty {
  charge_points = station ∷ [];
  transactions =
      (record {
        id = 0;
        charge_point = "1234";
        started_at = some 3;
        stopped_at = none;
        connector_id = "1";
        id_tag = "tag";
        meter_start = pos 50;
        meter_stop = pos 0;
        meter_correction = pos 0;
        stop_reason = none;
      })
      ∷ [];
}

-- The classes for StartTransaction.
abbrev pub start_classes : List MiddlewareClass
start_classes = orphaned_transaction_middleware ∷ start_transaction_middleware ∷ []

abbrev pub stored : List Message
stored = central_call ∷ result_message ∷ []
