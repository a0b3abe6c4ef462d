-- ===== src/Logic/Requests.antt =====
-- Properties of the state, through the handling of events and deliveries, be/ocpp/services.
use levity.Prelude.{◌≡◌, subst, List, [], ◌∷◌, some, String, Option, Option-cases, inl, inr, arith}
use levity.Logic.Handlers
use levity.Logic.Handlers.{HandlerKeeps, handle_response-Keeps}
use levity.Logic.Keeps.{Keeps, Keeps-bind, Keeps-bind-lift, Keeps-lift}
use levity.Logic.Leaves.{
  Leaves, Rewrites, Stops, leaf_rules, save_reply-Keeps, save_action-Keeps, save_message-Keeps,
  from_occp-Keeps, update_or_create_charge_point-Keeps, create_websocket_event-Keeps,
}
use levity.Logic.Retry.{retry-Keeps}
use levity.Middleware.Chain.{handle_class, get_middleware}
use levity.Middleware.Chain.Build.{chain, get_middleware-eq-chain}
use levity.Middleware.Metering.{handle_start_transaction}
use levity.Middleware.Orphans.{handle_orphaned_transaction}
use levity.Models.Exchange.{Handler, OcppResponse, MiddlewareClass}
use levity.Models.Rows.{ChargePoint, Message}
use levity.Models.World.{World, lift}
use levity.Objects.Messages.{save_message}
use levity.Platform.{Platform, missing}
use levity.Publisher.{basic_publish, publish, send_message_to_charge_point}
use levity.Services.CallHandler.{
  default_middleware, action_of, handler_of, middleware_classes, send_side_effects, deliver,
  handle_call,
}
use levity.Services.Settings.{load_ocpp_middleware, load_from_setting, configured}
use levity.Services.Consumer.{Queue, callback, consume}
use levity.Services.Events.{
  handle_connect, handle_disconnect, handle_receive, handle_by_event_type, handle_websocket_event,
}
use levity.Services.ResultHandler.{
  handle_call_result, handle_by_type, handle_message_from_charge_point,
}
use levity.Types.Action.{
  Action, authorize, boot_notification, data_transfer, diagnostics_status_notification,
  firmware_status_notification, heartbeat, meter_values, start_transaction, status_notification,
  stop_transaction, receive, WebsocketEventType,
}
use levity.Types.Error.{Result, ok}
use levity.Types.MessageType.{MessageType, call, call_result}
use levity.Value.{Value}

module _ ⦃p : Platform⦄ where
  -- Beside the leaves: a publish.
  pub record Publishes (P : World → Type 0) : Type 0 where
    pub publishes : (queue : String) (body : Value) → Keeps P (basic_publish queue body)

  -- And the chain that opens a transaction.
  pub record Starts (P : World → Type 0) : Type 0 where
    pub starts :
        (next : Handler)
        → HandlerKeeps P next
        → HandlerKeeps P (handle_orphaned_transaction (handle_start_transaction next))

  -- With no OCPP_MIDDLEWARE setting a message is served by a default chain.
  pub middleware_classes-default :
      (m : Message) (cs : List MiddlewareClass)
      → p.ocpp_middleware ≡ missing
      → middleware_classes m ≡ ok cs
      → (a : Action) × (m.action ≡ some a) × (cs ≡ default_middleware a m.message_type)
  unfolding middleware_classes load_ocpp_middleware load_from_setting action_of configured
  middleware_classes-default m cs unset h = elim (Option-cases m.action) [
    | inl e ↦ absurd (ground arith)
    | inr (a, e) ↦ (a, e, ground arith)
  ]

module _ ⦃p : Platform⦄ {P : World → Type 0} ⦃leaves : Leaves P⦄ ⦃stopping : Stops P⦄
    ⦃starting : Starts P⦄ where
  default-Keeps : (a : Action) (t : MessageType) → HandlerKeeps P (chain (default_middleware a t))
  unfolding chain default_middleware handle_class
  default-Keeps authorize call = Handlers.handle_authorize-Keeps _ handle_response-Keeps
  default-Keeps boot_notification call =
      Handlers.handle_boot_notification-Keeps _ handle_response-Keeps
  default-Keeps data_transfer call = Handlers.handle_data_transfer-Keeps _ handle_response-Keeps
  default-Keeps diagnostics_status_notification call =
      Handlers.handle_diagnostics_status_notification-Keeps _ handle_response-Keeps
  default-Keeps firmware_status_notification call =
      Handlers.handle_firmware_status_notification-Keeps _ handle_response-Keeps
  default-Keeps heartbeat call = Handlers.handle_heartbeat-Keeps _ handle_response-Keeps
  default-Keeps meter_values call = Handlers.handle_meter_values-Keeps _ handle_response-Keeps
  default-Keeps start_transaction call = starting.starts _ handle_response-Keeps
  default-Keeps status_notification call =
      Handlers.handle_auto_remote_start-Keeps _
        (Handlers.handle_status_notification-Keeps _ handle_response-Keeps)
  default-Keeps stop_transaction call =
      Handlers.handle_stop_transaction-Keeps _ handle_response-Keeps
  default-Keeps _ _ = handle_response-Keeps

  module _ (unset : p.ocpp_middleware ≡ missing) where
    -- The handler that a default chain gives.
    pub served-Keeps :
        (m : Message) (cs : List MiddlewareClass) (o : Option Handler) (h : Handler)
        → middleware_classes m ≡ ok cs
        → get_middleware cs ≡ ok o
        → handler_of o ≡ ok h
        → HandlerKeeps P h
    unfolding handler_of
    served-Keeps m cs o h classes built found =
        let (a, e, d) = middleware_classes-default m cs unset classes in
        let same : chain (default_middleware a m.message_type) ≡ h =
          cc (get_middleware-eq-chain cs, built, found, d) in
        subst (HandlerKeeps P) same (default-Keeps a m.message_type)

module _ ⦃p : Platform⦄ {P : World → Type 0} ⦃leaves : Leaves P⦄ ⦃publishing : Publishes P⦄ where
  pub send-Keeps : (cp : ChargePoint) (m : Message) → Keeps P (send_message_to_charge_point cp m)
  unfolding send_message_to_charge_point publish
  send-Keeps cp m = search (leaf_rules, retry-Keeps, publishing.publishes) depth 20

module _ ⦃p : Platform⦄ {P : World → Type 0} ⦃leaves : Leaves P⦄ ⦃rewriting : Rewrites P⦄
    ⦃publishing : Publishes P⦄ where
  send_side_effects-Keeps :
      (cp : ChargePoint) (ms : List Message) → Keeps P (send_side_effects cp ms)
  unfolding send_side_effects
  send_side_effects-Keeps cp [] = search leaf_rules
  send_side_effects-Keeps cp (m ∷ ms) = Keeps-bind (save_message m) _ (save_message-Keeps m) (λ u.
      Keeps-bind (send_message_to_charge_point cp m) _ (send-Keeps cp m)
        (λ v. send_side_effects-Keeps cp ms))

  pub deliver-Keeps :
      (cp : ChargePoint) (m : Message) (res : OcppResponse) → Keeps P (deliver cp m res)
  unfolding deliver
  deliver-Keeps cp m res =
      search
        (
          leaf_rules,
          save_message-Keeps,
          save_reply-Keeps m (some res.message.id),
          send-Keeps,
          send_side_effects-Keeps,
        )
        depth 20

module _ ⦃p : Platform⦄ where
  -- What handling a call keeps, as an interface to the proofs about the code above it.
  pub record Calls (P : World → Type 0) : Type 0 where
    pub calls : (cp : ChargePoint) (m : Message) → Keeps P (handle_call cp m)

module _ ⦃p : Platform⦄ {P : World → Type 0} ⦃leaves : Leaves P⦄ ⦃rewriting : Rewrites P⦄
    ⦃stopping : Stops P⦄ ⦃starting : Starts P⦄ ⦃publishing : Publishes P⦄
    (unset : p.ocpp_middleware ≡ missing) where
  handle_call-Keeps : (cp : ChargePoint) (m : Message) → Keeps P (handle_call cp m)
  unfolding handle_call
  handle_call-Keeps cp m = Keeps-bind-lift (middleware_classes m) _ (λ cs classes.
      Keeps-bind-lift (get_middleware cs) _ (λ o built. Keeps-bind-lift (handler_of o) _ (λ h found.
        Keeps-bind (h _) _ (served-Keeps unset m cs o h classes built found _)
          (λ res. deliver-Keeps cp m res))))

  pub default-Calls : Calls P
  default-Calls = record { calls = handle_call-Keeps }

module _ ⦃p : Platform⦄ {P : World → Type 0} ⦃leaves : Leaves P⦄ ⦃calling : Calls P⦄ where
  handle_by_type-Keeps :
      (t : MessageType) (cp : ChargePoint) (m : Message) → Keeps P (handle_by_type t cp m)
  unfolding handle_by_type handle_call_result
  handle_by_type-Keeps call cp m = calling.calls cp m
  handle_by_type-Keeps call_result cp m =
      search
        (
          leaf_rules,
          (λ (c : Message). save_reply-Keeps {P = P} c (some m.id)),
          (λ (c : Message). save_action-Keeps {P = P} m c.action),
        )
        depth 20

  pub handle_message-Keeps :
      (cp : ChargePoint) (m : Message) → Keeps P (handle_message_from_charge_point cp m)
  unfolding handle_message_from_charge_point
  handle_message-Keeps cp m = search (leaf_rules, handle_by_type-Keeps) depth 20

  handle_by_event_type-Keeps :
      (t : WebsocketEventType) (cp : ChargePoint) (event : Value)
      → Keeps P (handle_by_event_type t cp event)
  unfolding handle_by_event_type handle_connect handle_disconnect handle_receive
  handle_by_event_type-Keeps receive cp event =
      search (leaf_rules, from_occp-Keeps, handle_message-Keeps) depth 20
  handle_by_event_type-Keeps _ cp event = search (leaf_rules, create_websocket_event-Keeps) depth 20

  pub handle_websocket_event-Keeps : (event : Value) → Keeps P (handle_websocket_event event)
  unfolding handle_websocket_event
  handle_websocket_event-Keeps event =
      search (leaf_rules, update_or_create_charge_point-Keeps, handle_by_event_type-Keeps) depth 20

module _ ⦃p : Platform⦄ (P : World → Type 0) ⦃leaves : Leaves P⦄ ⦃calling : Calls P⦄ where
  callback-Keeps : (body : Result Value) (q : Queue) → P q.world → P (callback body q).world
  unfolding callback
  callback-Keeps body q h =
      (Keeps-bind {P = P} (lift body) handle_websocket_event (Keeps-lift body)
          handle_websocket_event-Keeps).at
        q.world h

  pub consume-Keeps :
      (bodies : List (Result Value)) (q : Queue) → P q.world → P (consume bodies q).world
  unfolding consume
  consume-Keeps [] q h = h
  consume-Keeps (body ∷ bodies) q h =
      consume-Keeps bodies (callback body q) (callback-Keeps body q h)
