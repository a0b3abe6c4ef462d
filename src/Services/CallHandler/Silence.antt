-- ===== src/Services/CallHandler/Silence.antt =====
-- What ChargePointCallHandler of be/ocpp/services/charge_point_message_handler.py sends, and its chain.
use levity.Prelude.{ℕ, String, ◌≡◌, refl, ap, ◌∙◌, List, [], ◌∷◌, some}
use levity.Dict.{subscript}
use levity.Logic.Handlers.{handler_rules, stop_orphans-Keeps, finish_start-Keeps}
use levity.Logic.Keeps.{Keeps, Keeps-created}
use levity.Logic.Leaves.{Leaves, Stops, leaf_rules}
use levity.Logic.Requests.{Starts, served-Keeps}
use levity.Middleware.Chain.{get_middleware, handle_class}
use levity.Middleware.Chain.Build.{chain, get_middleware-eq-chain}
use levity.Middleware.Metering.{open_transaction, handle_start_transaction}
use levity.Middleware.Orphans.{orphaned_transactions, stop_all, handle_orphaned_transaction}
use levity.Middleware.Profile.{save_status, handle_status_notification}
use levity.Middleware.RemoteStart.{handle_auto_remote_start}
use levity.Models.Exchange.{
  Handler, OcppRequest, MiddlewareClass, auto_remote_start_middleware,
  status_notification_middleware,
}
use levity.Models.Rows.{ChargePoint, Message, Transaction}
use levity.Models.World.{World, world_of, raised, modify, ◌>>=◌}
use levity.Objects.ChargePoints.{upsert_charge_point, insert_websocket_event}
use levity.Objects.Effects.{utc_now, uuid4}
use levity.Objects.Messages.{insert_message, write_message}
use levity.Objects.Meters.{insert_meter_value}
use levity.Objects.Transactions.{create_transaction, save_charge_point, save_transaction, stop}
use levity.Platform.{Platform, missing}
use levity.Services.CallHandler.{
  action_of, handler_of, default_middleware, middleware_classes, handle_call,
}
use levity.Services.Settings.{load_ocpp_middleware, load_from_setting, configured}
use levity.Types.Action.{Action, status_notification}
use levity.Types.Error.{Error, ok, err, value_error}
use levity.Types.MessageType.{call}
use levity.Types.Status.{parse_charge_point_status}
use levity.Value.{Value, end}

module _ ⦃p : Platform⦄ (sent : List (String × Value)) where
  abbrev Silent : World → Type 0
  Silent w = w.sent ≡ sent

  Silent-Leaves : Leaves Silent
  unfolding utc_now uuid4 modify save_charge_point upsert_charge_point insert_message write_message
      insert_meter_value insert_websocket_event
  Silent-Leaves = record {
    clock = record { at = λ w h. h };
    ids = record { at = λ w h. h };
    counters = λ counter label. record { at = λ w h. h };
    records = λ tag v. record { at = λ w h. h };
    charge_points = λ id f. record { at = λ w h. h };
    upserts = λ id queue. record { at = λ w h. h };
    new_message = λ m. record {
      at = λ w h. Keeps-created Silent _ w (p.message_table.create m w.messages) h (λ rows. h);
    };
    messages = λ id f same. record { at = λ w h. h };
    new_meter_value = λ r. record {
      at = λ w h.
          Keeps-created Silent _ w (p.meter_value_table.create r w.meter_values) h (λ rows. h);
    };
    new_event = λ e. record {
      at = λ w h.
          Keeps-created Silent _ w (p.websocket_event_table.create e w.websocket_events) h
            (λ rows. h);
    };
  }

  save_transaction-Silent :
      (id : ℕ) (f : Transaction → Transaction) → Keeps Silent (save_transaction id f)
  unfolding save_transaction
  save_transaction-Silent id f = record { at = λ w h. h }

  create_transaction-Silent : (t : Transaction) → Keeps Silent (create_transaction t)
  unfolding create_transaction
  create_transaction-Silent t = record {
    at =
        λ w h. Keeps-created Silent _ w (p.transaction_table.create t w.transactions) h (λ rows. h);
  }

  orphaned_transactions-Silent : (cp : String) → Keeps Silent (orphaned_transactions cp)
  unfolding orphaned_transactions
  orphaned_transactions-Silent cp = record { at = λ w h. h }

  Silent-Stops : Stops Silent
  unfolding stop
  Silent-Stops =
      let instance leaves = Silent-Leaves in
      record { stops = λ t reason v. search (leaf_rules, save_transaction-Silent) depth 20 }

  Silent-Starts : Starts Silent
  unfolding handle_orphaned_transaction stop_all handle_start_transaction open_transaction
  Silent-Starts =
      let instance leaves = Silent-Leaves in
      let instance stopping = Silent-Stops in
      record {
        starts = λ next keeps req.
            search
              (
                handler_rules,
                stop_orphans-Keeps,
                create_transaction-Silent,
                finish_start-Keeps next keeps,
                orphaned_transactions-Silent,
              )
              depth 40;
      }

module _ ⦃p : Platform⦄ where
  -- With no OCPP_MIDDLEWARE setting, the chain that serves a message publishes nothing, whether it
  -- returns or raises: the answer and its side effects leave only after the whole chain has returned.
  pub chain_silent :
      (m : Message) (cs : List MiddlewareClass) (h : Handler) (req : OcppRequest) (w : World)
      → p.ocpp_middleware ≡ missing
      → middleware_classes m ≡ ok cs
      → get_middleware cs ≡ ok (some h)
      → (world_of (h req w)).sent ≡ w.sent
  unfolding handler_of
  chain_silent m cs h req w unset classes built =
      let instance leaves = Silent-Leaves w.sent in
      let instance stopping = Silent-Stops w.sent in
      let instance starting = Silent-Starts w.sent in
      (served-Keeps {P = Silent w.sent} unset m cs (some h) h classes built refl req).at w refl

  -- The classes for a message that names an action.
  pub classes_of_named :
      (m : Message) (a : Action)
      → p.ocpp_middleware ≡ missing
      → m.action ≡ some a
      → middleware_classes m ≡ ok (default_middleware a m.message_type)
  unfolding middleware_classes action_of load_ocpp_middleware load_from_setting configured
  classes_of_named m a unset named = rw (named, unset)

  -- What a call comes to when its chain raises.
  handle_call_raised :
      (cp : ChargePoint) (m : Message) (cs : List MiddlewareClass) (e : Error) (w w' : World)
      → middleware_classes m ≡ ok cs
      → chain cs (record { message = m; charge_point = cp; extra = end }) w ≡ raised e w'
      → handle_call cp m w ≡ raised e w'
  unfolding handle_call handler_of ◌>>=◌
  handle_call_raised cp m cs e w w' classes raises =
      rw (classes, get_middleware-eq-chain cs, raises)

  status_chain_raised :
      (req : OcppRequest) (given : Value) (w : World)
      → subscript req.message.content "status" ≡ ok given
      → parse_charge_point_status given ≡ err value_error
      → chain (auto_remote_start_middleware ∷ status_notification_middleware ∷ []) req w
        ≡ raised value_error w
  unfolding handle_auto_remote_start handle_status_notification save_status handle_class chain ◌>>=◌
  status_chain_raised req given w has unknown = rw (has, unknown)

  -- With no OCPP_MIDDLEWARE setting, a StatusNotification whose status is no ChargePointStatus, such
  -- as OCPP's Faulted and Unavailable, raises ValueError: no row changes and no answer is sent.
  pub handle_call_unknown_status :
      (cp : ChargePoint) (m : Message) (given : Value) (w : World)
      → p.ocpp_middleware ≡ missing
      → m.action ≡ some status_notification
      → m.message_type ≡ call
      → subscript m.content "status" ≡ ok given
      → parse_charge_point_status given ≡ err value_error
      → handle_call cp m w ≡ raised value_error w
  unfolding default_middleware
  handle_call_unknown_status cp m given w unset named called has unknown =
      handle_call_raised cp m (auto_remote_start_middleware ∷ status_notification_middleware ∷ [])
        value_error w w
        (classes_of_named m status_notification unset named
          ∙ ap (λ t. ok (default_middleware status_notification t)) called)
        (status_chain_raised _ given w has unknown)
