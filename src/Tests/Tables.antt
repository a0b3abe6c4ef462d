-- ===== src/Tests/Tables.antt =====
-- The messages' table after deliveries.
use levity.Prelude.{refl, List, [], ◌∷◌, In, here, there}
use levity.Keys.{Apart}
use levity.Keys.Delivering.{consume-Apart, consume-AtMostOne}
use levity.Models.Rows.{clash, same_actor}
use levity.Services.Consumer.{Queue, consume, callback}
use levity.Services.ResultHandler.{is_call_of}
use levity.Services.ResultHandler.Originating.{AtMostOne}
use levity.Dict.{subscript}
use levity.Memory.{to_text}
use levity.Models.World.{◌>>=◌, created}
use levity.Objects.ChargePoints.{
  update_or_create_charge_point, upsert_charge_point, create_websocket_event,
  insert_websocket_event,
}
use levity.Objects.Effects.{utc_now}
use levity.Objects.Transactions.{save_charge_point}
use levity.Receivers.{
  post_save_websocket_event, count_websocket_events, is_disconnect, log_websocket_events,
}
use levity.Services.Events.{handle_websocket_event, handle_by_event_type, handle_connect}
use levity.Types.Action.{parse_websocket_event_type}
use levity.Tests.Samples.{calm, charging, stored, result_message, connect_event, start_event}
use levity.Types.Error.{Result, ok, err, value_error}
use levity.Value.{Value}

abbrev linked_tables : Queue
linked_tables = record { world = record charging { messages = stored }; acknowledged = 0 }

abbrev bodies : List (Result Value)
bodies = ok connect_event ∷ ok (start_event "7") ∷ err value_error ∷ ok (start_event "8") ∷ []

stored-Apart : Apart stored
unfolding clash same_actor
stored-Apart = (((refl, refl), tt), (tt, tt))

consume-Apart_example : Apart (consume ⦃p = calm⦄ bodies linked_tables).world.messages
consume-Apart_example = consume-Apart ⦃p = calm⦄ bodies linked_tables refl stored-Apart

abbrev connecting : List (Result Value)
connecting = ok connect_event ∷ []

result-stored : In result_message (consume ⦃p = calm⦄ connecting linked_tables).world.messages
unfolding consume callback ◌>>=◌ handle_websocket_event subscript update_or_create_charge_point
    to_text upsert_charge_point parse_websocket_event_type handle_by_event_type handle_connect
    utc_now save_charge_point create_websocket_event insert_websocket_event created
    post_save_websocket_event count_websocket_events is_disconnect log_websocket_events
result-stored = there (here refl)

consume-AtMostOne_example : AtMostOne result_message (
    calm.message_table.get
      (is_call_of result_message)
      (consume ⦃p = calm⦄ connecting linked_tables).world.messages)
consume-AtMostOne_example =
    consume-AtMostOne ⦃p = calm⦄ connecting linked_tables result_message refl stored-Apart
      result-stored refl refl
