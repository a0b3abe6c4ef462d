-- ===== src/Tests/Arrivals.antt =====
-- A StartTransaction on the queue, new and with an id that was there.
use levity.Prelude.{◌≡◌, refl, List, []}
use levity.Dict.{subscript}
use levity.Memory.{to_text, to_json}
use levity.Models.Rows.{ChargePoint, clash, same_actor}
use levity.Models.World.{World, done, raised}
use levity.OneOpen.Arrival.{handle_websocket_event-answers, IsAnswered}
use levity.Services.Events.{handle_websocket_event}
use levity.Services.Events.Repeated.{handle_websocket_event-repeated}
use levity.Services.Events.Rows.{others}
use levity.Tests.Samples.{calm, start_event, start_content}
use levity.Tests.Starts.{metered, metered-Readable, start_content_lem}
use levity.Tests.Witnesses.{charging-OneOpen}
use levity.Types.Action.{parse_websocket_event_type, parse_action, start_transaction}
use levity.Types.Error.{integrity_error}
use levity.Types.ModelEnum.{of_value, of_text}
use levity.Value.{str, obj, lookup, truthy}

handle_websocket_event-answers_example :
    (w : World) × (handle_websocket_event ⦃p = calm⦄ (start_event "8") metered ≡ done tt w)
    × IsAnswered ⦃p = calm⦄ "1234" "q" (str "8") metered w
unfolding subscript lookup to_text to_json parse_websocket_event_type clash same_actor
handle_websocket_event-answers_example =
    handle_websocket_event-answers ⦃p = calm⦄ refl (λ n. refl) (λ fs. (obj fs, refl)) (str "8")
      (obj start_content) "8" (obj start_content) refl refl start_content_lem (start_event "8")
      (str "1234") (str "q") (str "receive") "1234" "q" metered refl refl refl refl refl refl refl
      charging-OneOpen metered-Readable (refl, refl)

handle_websocket_event-repeated_example :
    (rows : List ChargePoint) × (handle_websocket_event ⦃p = calm⦄ (start_event "7") metered
      ≡ raised integrity_error (record metered { charge_points = rows }))
    × (others "1234" rows ≡ [])
unfolding subscript lookup to_text to_json parse_websocket_event_type parse_action of_value of_text
    truthy clash same_actor
handle_websocket_event-repeated_example =
    handle_websocket_event-repeated ⦃p = calm⦄ (start_event "7") (str "1234") (str "q")
      (str "receive") (str "7") (str "StartTransaction") (obj start_content) start_transaction
      "1234" "q" "7" (obj start_content) metered refl refl refl refl refl refl refl refl refl refl
      refl refl
