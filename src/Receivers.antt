-- ===== src/Receivers.antt =====
-- be/ocpp/receivers: what happens after a message or a websocket event is saved. Both receivers act
-- on created rows only. Fluentd's sender and the Prometheus counters are lists of what they got.
use levity.Prelude.{
  String, Bool, true, false, Option, some, [], ◌∷◌, ◌++◌, ◌&&◌, ◌||◌, not, if◌then◌else◌,
}
use levity.Types.Action.{
  Action, boot_notification, ActorType, charge_point, WebsocketEventType, disconnect,
  websocket_event_type_value,
}
use levity.Types.MessageType.{MessageType, call}
use levity.Models.Rows.{Message, WebsocketEvent}
use levity.Models.World.{Exec, World, pure, lift, modify, ◌>>=◌, ◌>>◌}
use levity.Platform.{Platform}
use levity.Value.{Value, str, obj, entry}
use levity.Wire.{to_ocpp}
use Prim.Native.String.{◌++◌ as str_append}

-- The key of MESSAGE_COUNTERS.
unfoldable pub is_counted : ActorType → MessageType → Option Action → Bool
is_counted charge_point call (some boot_notification) = true
is_counted _ _ _ = false

abbrev pub count : String → String → World → World
count counter label w = record w { counted = w.counted ++ (counter, label) ∷ [] }

abbrev pub emit : String → Value → World → World
emit tag content w = record w { emitted = w.emitted ++ (tag, content) ∷ [] }

unfoldable pub count_messages : Message → Bool → Exec (Unit {0})
count_messages m created =
    if created && is_counted m.actor m.message_type m.action
    then modify (count "ocpp_charge_point_boot" m.charge_point)
    else pure tt

-- The key of WEBSOCKET_COUNTERS.
unfoldable pub is_disconnect : WebsocketEventType → Bool
is_disconnect disconnect = true
is_disconnect _ = false

unfoldable pub count_websocket_events : WebsocketEvent → Bool → Exec (Unit {0})
count_websocket_events e created =
    if created && is_disconnect e.type
    then modify (count "ocpp_charge_point_ws_disconnect" e.charge_point)
    else pure tt

module _ ⦃p : Platform⦄ where
  unfoldable pub log_messages : Message → Bool → Exec (Unit {0})
  log_messages m created =
      if not p.has_fluentd || not created
      then pure tt
      else do envelope ← lift (to_ocpp m); modify (emit "message" envelope)

  unfoldable pub log_websocket_events : WebsocketEvent → Bool → Exec (Unit {0})
  log_websocket_events e created =
      if not p.has_fluentd || not created
      then pure tt
      else modify (
          emit (str_append "ws." (websocket_event_type_value e.type))
            (obj (entry "id" (str e.charge_point))))

  -- `post_save` of each model, the receivers in the order of their registration.
  unfoldable pub post_save_message : Message → Bool → Exec (Unit {0})
  post_save_message m created = do count_messages m created; log_messages m created

  unfoldable pub post_save_websocket_event : WebsocketEvent → Bool → Exec (Unit {0})
  post_save_websocket_event e created = do
    count_websocket_events e created
    log_websocket_events e created
