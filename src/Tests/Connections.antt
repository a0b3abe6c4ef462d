-- ===== src/Tests/Connections.antt =====
-- A charge point that connects, and that has a cable put in.
use levity.Prelude.{◌≡◌, ◌≢◌, ◌⊎◌, refl, true}
use levity.Dict.{subscript}
use levity.Memory.{to_text, to_json}
use levity.Middleware.RemoteStart.{handle_auto_remote_start}
use levity.Middleware.RemoteStart.Preparing.{handle_auto_remote_start-Added, Added}
use levity.Models.Exchange.{OcppRequest}
use levity.Models.Rows.{clash, same_actor}
use levity.Models.World.{World, done}
use levity.Services.Events.{handle_websocket_event}
use levity.Services.Events.Connected.{handle_websocket_event-Follows, Follows}
use levity.Tests.Samples.{calm, charging, connect_event, request, number}
use levity.Tests.Witnesses.{response}
use levity.Types.Action.{parse_websocket_event_type, status_notification}
use levity.Types.ModelEnum.{of_value, of_text}
use levity.Types.Status.{preparing, parse_charge_point_status}
use levity.Value.{str, lookup, Fields, field, entry, obj, end}

handle_websocket_event-Follows_example :
    (w : World) × (handle_websocket_event ⦃p = calm⦄ connect_event charging ≡ done tt w)
    × Follows ⦃p = calm⦄ "1234" "q" true charging w
unfolding subscript lookup to_text parse_websocket_event_type
handle_websocket_event-Follows_example =
    handle_websocket_event-Follows ⦃p = calm⦄ true connect_event (str "1234") (str "q")
      (str "connect") "1234" "q" charging refl refl refl refl refl refl

abbrev plugged : Fields
plugged = field "connectorId" (number 1) (field "status" (str "Preparing") end)

abbrev plugged_request : OcppRequest
plugged_request = request status_notification plugged

handle_auto_remote_start-Added_example :
    ((preparing ≡ preparing)
      × Added ⦃p = calm⦄ plugged_request "u"
          (obj (entry "idTag" (str "anonymous")))
          (handle_auto_remote_start ⦃p = calm⦄ (λ q w. done response w))
          charging
          charging
          response)
    ⊎ ((preparing ≢ preparing)
        × (handle_auto_remote_start ⦃p = calm⦄ (λ q w. done response w) plugged_request charging
            ≡ done response charging))
unfolding subscript lookup to_text to_json parse_charge_point_status of_value of_text clash
    same_actor
handle_auto_remote_start-Added_example =
    handle_auto_remote_start-Added ⦃p = calm⦄ (λ q w. done response w) plugged_request charging
      charging response (str "Preparing") preparing "u" (obj (entry "idTag" (str "anonymous"))) refl
      refl refl refl refl refl refl
