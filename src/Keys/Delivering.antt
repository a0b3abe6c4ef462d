-- ===== src/Keys/Delivering.antt =====
-- The handling of calls in be/ocpp/services/charge_point_message_handler.py, and of any deliveries,
-- and the keys of the messages' table.
use levity.Prelude.{◌≡◌, subst, Option, some, List, [], ◌∷◌, In}
use levity.Keys.{Kept, Apart, Apart-Unique}
use levity.Keys.Calls.{less, Kept-Leaves, Kept-Publishes, save_message-Kept}
use levity.Keys.Chains
use levity.Keys.Chains.{HandlerHolds, Held, handle_response-Holds}
use levity.Logic.Keeps.{Keeps, Keeps-bind-lift}
use levity.Logic.Leaves.{save_reply-Keeps}
use levity.Logic.Requests.{Calls, consume-Keeps, middleware_classes-default, send-Keeps}
use levity.Logic.Triple.{Ends-world_of, Triple, Triple-bind, Triple-step}
use levity.Middleware.Chain.{handle_class, get_middleware}
use levity.Middleware.Chain.Build.{chain, get_middleware-eq-chain}
use levity.Models.Exchange.{Handler, OcppResponse, MiddlewareClass}
use levity.Models.Rows.{ChargePoint, Message}
use levity.Models.World.{pure}
use levity.Objects.Messages.{save_message}
use levity.Platform.{Platform, missing}
use levity.Publisher.{send_message_to_charge_point}
use levity.Serialization.{json_encode}
use levity.Services.CallHandler.{
  default_middleware, handler_of, middleware_classes, send_side_effects, deliver, handle_call,
}
use levity.Services.Consumer.{Queue, consume}
use levity.Services.ResultHandler.Originating.{AtMostOne, originating_call-AtMostOne}
use levity.Services.ResultHandler.{is_call_of}
use levity.Types.Action.{
  Action, authorize, boot_notification, data_transfer, diagnostics_status_notification,
  firmware_status_notification, heartbeat, meter_values, start_transaction, status_notification,
  stop_transaction, charge_point,
}
use levity.Types.Error.{Result, ok}
use levity.Types.MessageType.{MessageType, call, call_result}
use levity.Value.{Value}

module _ ⦃p : Platform⦄ where
  default-Holds : (a : Action) (t : MessageType) → HandlerHolds (chain (default_middleware a t))
  unfolding chain default_middleware handle_class
      levity.Middleware.Core.handle_diagnostics_status_notification
      levity.Middleware.Core.handle_firmware_status_notification
  default-Holds authorize call = Chains.handle_authorize-Holds _ handle_response-Holds
  default-Holds boot_notification call =
      Chains.handle_boot_notification-Holds _ handle_response-Holds
  default-Holds data_transfer call = Chains.handle_data_transfer-Holds _ handle_response-Holds
  default-Holds diagnostics_status_notification call = handle_response-Holds
  default-Holds firmware_status_notification call = handle_response-Holds
  default-Holds heartbeat call = Chains.handle_heartbeat-Holds _ handle_response-Holds
  default-Holds meter_values call = Chains.handle_meter_values-Holds _ handle_response-Holds
  default-Holds start_transaction call = Chains.handle_orphaned-Holds _ handle_response-Holds
  default-Holds status_notification call =
      Chains.handle_auto_remote_start-Holds _
        (Chains.handle_status_notification-Holds _ handle_response-Holds)
  default-Holds stop_transaction call = Chains.handle_stop_transaction-Holds _ handle_response-Holds
  default-Holds _ _ = handle_response-Holds

  served-Holds :
      (m : Message) (cs : List MiddlewareClass) (o : Option Handler) (h : Handler)
      → p.ocpp_middleware ≡ missing
      → middleware_classes m ≡ ok cs
      → get_middleware cs ≡ ok o
      → handler_of o ≡ ok h
      → HandlerHolds h
  unfolding handler_of
  served-Holds m cs o h unset classes built found =
      let (a, e, d) = middleware_classes-default m cs unset classes in
      let same : chain (default_middleware a m.message_type) ≡ h =
        cc (get_middleware-eq-chain cs, built, found, d) in
      subst HandlerHolds same (default-Holds a m.message_type)

  send_side_effects-Triple :
      (cp : ChargePoint) (ms : List Message)
      → Triple (Kept ms) (λ u. Kept []) (Kept []) (send_side_effects cp ms)
  unfolding send_side_effects pure
  send_side_effects-Triple cp [] = record { at = λ w h. h }
  send_side_effects-Triple cp (m ∷ ms) =
      let instance leaves = Kept-Leaves (m ∷ ms) in
      let instance publishing = Kept-Publishes (m ∷ ms) in
      Triple-bind (λ u. Kept (m ∷ ms)) _ (save_message m) _ (save_message-Kept m ms)
        (λ u.
          Triple-step _ (send_message_to_charge_point cp m) _ (send-Keeps cp m) (less (m ∷ ms))
            (λ v. record { at = λ w h. (send_side_effects-Triple cp ms).at w (h.0, h.1.1) }))

  deliver-Triple :
      (cp : ChargePoint) (m : Message) (res : OcppResponse)
      → Triple (Held res) (λ u. Kept []) (Kept []) (deliver cp m res)
  unfolding deliver
  deliver-Triple cp m res =
      let answer = record (res.message) { content = json_encode res.message.content } in
      let ms = answer ∷ res.side_effects in
      let instance leaves = Kept-Leaves ms in
      let instance publishing = Kept-Publishes ms in
      Triple-bind (λ u. Kept ms) _ (save_message answer) _
        (save_message-Kept answer res.side_effects)
        (λ u. Triple-step _ _ _ (save_reply-Keeps m (some answer.id)) (less ms) (λ n.
          Triple-step _ (send_message_to_charge_point cp answer) _ (send-Keeps cp answer) (less ms)
            (λ v. record {
              at = λ w h. (send_side_effects-Triple cp res.side_effects).at w (h.0, h.1.1);
            })))

  handle_call-Kept :
      (cp : ChargePoint) (m : Message)
      → p.ocpp_middleware ≡ missing
      → Keeps (Kept []) (handle_call cp m)
  unfolding handle_call
  handle_call-Kept cp m unset = Keeps-bind-lift (middleware_classes m) _ (λ cs classes.
      Keeps-bind-lift (get_middleware cs) _ (λ o built. Keeps-bind-lift (handler_of o) _ (λ h found.
        record {
          at = λ w k. Ends-world_of (Kept []) _ (
              (Triple-bind Held (λ u. Kept []) (h _) _
                  (served-Holds m cs o h unset classes built found _)
                  (λ res. deliver-Triple cp m res)).at
                w k);
        })))

  Kept-Calls : p.ocpp_middleware ≡ missing → Calls (Kept [])
  Kept-Calls unset = record { calls = λ cp m. handle_call-Kept cp m unset }

  -- With no OCPP_MIDDLEWARE setting, any row of deliveries, well formed or not, leads from a messages'
  -- table whose rows have different keys and meet the unique constraint to such a table, also where a
  -- handler raises halfway; so no save of a message, of which some write whole rows, breaks it.
  pub consume-Apart :
      (bodies : List (Result Value)) (q : Queue)
      → p.ocpp_middleware ≡ missing
      → Apart q.world.messages
      → Apart (consume bodies q).world.messages
  consume-Apart bodies q unset apart =
      let instance leaves = Kept-Leaves [] in
      let instance calling = Kept-Calls unset in (consume-Keeps (Kept []) bodies q (apart, tt)).0

  -- With no OCPP_MIDDLEWARE setting, after any row of deliveries from a messages' table whose rows have
  -- different keys and meet the unique constraint: for any stored result of a charge point, the
  -- look-up of its originating call finds a call of the central system with that unique id, or
  -- raises DoesNotExist; it never finds two, and never takes a call that a charge point made.
  pub consume-AtMostOne :
      (bodies : List (Result Value)) (q : Queue) (m : Message)
      → p.ocpp_middleware ≡ missing
      → Apart q.world.messages
      → In m (consume bodies q).world.messages
      → m.actor ≡ charge_point
      → m.message_type ≡ call_result
      → AtMostOne m (p.message_table.get (is_call_of m) (consume bodies q).world.messages)
  consume-AtMostOne bodies q m unset apart stored from is_result =
      let rows = (consume bodies q).world.messages in
      originating_call-AtMostOne m rows (Apart-Unique rows (consume-Apart bodies q unset apart))
        stored from is_result
