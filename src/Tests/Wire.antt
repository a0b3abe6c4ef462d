-- ===== src/Tests/Wire.antt =====
-- The theorems about frames, settings and the broker on concrete inputs.
use levity.Prelude.{◌≡◌, refl, some}
use levity.Middleware.Chain.{get_middleware}
use levity.Middleware.Chain.Build.{chain, get_middleware-eq-chain}
use levity.Models.World.{raised}
use levity.Objects.Messages.Frames.{ocpp_message-ReadsBack, ReadsBack}
use levity.Services.CallHandler.{handle_call}
use levity.Services.CallHandler.Silence.{handle_call_unknown_status}
use levity.Tests.Samples.{
  start_classes, calm, number, station, call_message, central_call, charging,
}
use levity.Dict.{subscript}
use levity.Value.{lookup, Value, str, field, end, Fields}
use levity.Types.Status.{parse_charge_point_status}
use levity.Types.ModelEnum.{of_value, of_text}
use levity.Types.Action.{status_notification}
use levity.Types.Error.{ok, value_error}
use levity.Wire.{ocpp_message}

ocpp_message-ReadsBack_example :
    (frame : Value) × (ocpp_message central_call ≡ ok frame) × ReadsBack central_call frame
ocpp_message-ReadsBack_example = ocpp_message-ReadsBack central_call

abbrev faulted : Fields
faulted = field "connectorId" (number 1) (field "status" (str "Faulted") end)

handle_call_unknown_status_example :
    handle_call ⦃p = calm⦄ station (call_message status_notification faulted) charging
    ≡ raised value_error charging
unfolding lookup subscript parse_charge_point_status of_value of_text
handle_call_unknown_status_example =
    handle_call_unknown_status ⦃p = calm⦄ station (call_message status_notification faulted)
      (str "Faulted") charging refl refl refl refl refl

get_middleware-eq-chain_example :
    get_middleware ⦃p = calm⦄ start_classes ≡ ok (some (chain ⦃p = calm⦄ start_classes))
get_middleware-eq-chain_example = get_middleware-eq-chain ⦃p = calm⦄ start_classes
