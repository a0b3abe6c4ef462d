-- ===== src/Keys/Chains.antt =====
-- The middleware of be/ocpp/services/ocpp and the keys of the messages' table: the answer that a
-- default chain returns, and its side effects, have rows.
use levity.Prelude.{ℕ, Bool, true, false, some, [], ◌∷◌, All-append, if◌then◌else◌}
use levity.Dict.{update}
use levity.Keys.{IsStored, Kept}
use levity.Keys.Calls.{
  less, Kept-Leaves, Kept-Stops, stop_all-Kept, open_transaction-Kept, create_message-Triple,
}
use levity.Logic.Handlers.{handler_rules}
use levity.Logic.Leaves.{leaf_rules, save_transaction_id-Keeps}
use levity.Logic.Triple.{Triple, Triple-bind, Triple-step}
use levity.Middleware.Base.{update_data, handle_response, blank_response, assert_action}
use levity.Middleware.Core.{handle_authorize, handle_data_transfer, handle_heartbeat}
use levity.Middleware.Metering.{
  handle_meter_values, open_transaction, finish_start, handle_start_transaction,
  handle_stop_transaction, record_meter_values,
}
use levity.Middleware.Orphans.{handle_orphaned_transaction, stop_all}
use levity.Middleware.Profile.{
  save_hardware, handle_boot_notification, save_status, handle_status_notification,
}
use levity.Middleware.RemoteStart.{add_remote_start, handle_auto_remote_start, is_preparing}
use levity.Models.Exchange.{Handler, OcppRequest, OcppResponse}
use levity.Models.Rows.{Transaction}
use levity.Models.World.{World, pure, lift, ◌>>=◌}
use levity.Objects.Messages.{create_message, transaction_from_data}
use levity.Objects.Effects.{utc_now, uuid4}
use levity.Objects.Transactions.{stop}
use levity.Platform.{Platform}
use levity.Value.{Fields}

-- The answer and its side effects have rows.
abbrev pub Held : OcppResponse → World → Type 0
Held res w = Kept (res.message ∷ res.side_effects) w

abbrev pub HandlerHolds : Handler → Type 0
HandlerHolds h = (req : OcppRequest) → Triple (Kept []) Held (Kept []) (h req)

module _ ⦃p : Platform⦄ where
  held : (res : OcppResponse) (w : World) → Held res w → Kept [] w
  held res w h = (h.0, tt)

  update_data-Triple :
      (res : OcppResponse) (fs : Fields) → Triple (Held res) Held (Kept []) (update_data res fs)
  unfolding update_data pure
  update_data-Triple res fs =
      let instance leaves = Kept-Leaves (res.message ∷ res.side_effects) in
      Triple-step _ (lift (update res.message.content fs)) _ (search leaf_rules) (held res)
        (λ content. record { at = λ w h. h })

  pub handle_response-Holds : HandlerHolds handle_response
  unfolding handle_response pure
  handle_response-Holds req =
      Triple-bind (λ m. Kept (m ∷ [])) _ (create_message (blank_response req.message)) _
        (create_message-Triple [] _) (λ m. record { at = λ w h. h })

  module _ (next : Handler) (holds : HandlerHolds next) where
    pub handle_authorize-Holds : HandlerHolds (handle_authorize next)
    unfolding handle_authorize
    handle_authorize-Holds req =
        Triple-bind Held _ (next req) _ (holds req) (λ res. update_data-Triple res _)

    pub handle_data_transfer-Holds : HandlerHolds (handle_data_transfer next)
    unfolding handle_data_transfer
    handle_data_transfer-Holds req =
        Triple-bind Held _ (next req) _ (holds req) (λ res. update_data-Triple res _)

    -- The clock, and then the answer.
    dated-Triple :
        (res : OcppResponse) (f : ℕ → Fields)
        → Triple (Held res) Held (Kept []) (do now ← utc_now; update_data res (f now))
    dated-Triple res f =
        let instance leaves = Kept-Leaves (res.message ∷ res.side_effects) in
        Triple-step _ utc_now _ (search leaf_rules) (held res) (λ now. update_data-Triple res _)

    pub handle_heartbeat-Holds : HandlerHolds (handle_heartbeat next)
    unfolding handle_heartbeat
    handle_heartbeat-Holds req =
        let instance leaves = Kept-Leaves [] in
        Triple-step _ utc_now _ (search leaf_rules) (less []) (λ now.
          Triple-step _ _ _ (search leaf_rules) (less [])
            (λ u. Triple-bind Held _ (next req) _ (holds req) (λ res. dated-Triple res _)))

    pub handle_boot_notification-Holds : HandlerHolds (handle_boot_notification next)
    unfolding handle_boot_notification
    handle_boot_notification-Holds req =
        let instance leaves = Kept-Leaves [] in
        Triple-step _ (save_hardware req) _ (search handler_rules) (less [])
          (λ u. Triple-bind Held _ (next req) _ (holds req) (λ res. dated-Triple res _))

    pub handle_status_notification-Holds : HandlerHolds (handle_status_notification next)
    unfolding handle_status_notification
    handle_status_notification-Holds req =
        let instance leaves = Kept-Leaves [] in
        Triple-step _ (save_status req) _ (search handler_rules) (less []) (λ u. holds req)

    -- One more side effect.
    add_remote_start-Triple :
        (req : OcppRequest) (res : OcppResponse)
        → Triple (Held res) Held (Kept []) (add_remote_start req res)
    unfolding add_remote_start pure
    add_remote_start-Triple req res =
        let instance leaves = Kept-Leaves (res.message ∷ res.side_effects) in
        Triple-step _ uuid4 _ (search leaf_rules) (held res) (λ id.
          Triple-bind (λ m. Kept (m ∷ res.message ∷ res.side_effects)) _ (create_message _) _
            (create_message-Triple (res.message ∷ res.side_effects) _)
            (λ m. record {
              at = λ w h. (
                h.0,
                (
                  h.1.1.0,
                  All-append (IsStored w.messages) res.side_effects (m ∷ []) h.1.1.1 (h.1.0, tt),
                ),
              );
            }))

    remote_start-Triple :
        (req : OcppRequest) (res : OcppResponse) (b : Bool)
        → Triple (Held res) Held (Kept []) (if b then add_remote_start req res else pure res)
    unfolding pure
    remote_start-Triple req res true = add_remote_start-Triple req res
    remote_start-Triple req res false = record { at = λ w h. h }

    pub handle_auto_remote_start-Holds : HandlerHolds (handle_auto_remote_start next)
    unfolding handle_auto_remote_start
    handle_auto_remote_start-Holds req = Triple-bind Held _ (next req) _ (holds req) (λ res.
        let instance leaves = Kept-Leaves (res.message ∷ res.side_effects) in
        Triple-step _ (assert_action _ _) _ (search handler_rules) (held res) (λ u.
          Triple-step _ (lift _) _ (search leaf_rules) (held res) (λ given.
            Triple-step _ (lift _) _ (search leaf_rules) (held res)
              (λ status. remote_start-Triple req res (is_preparing status)))))

    pub handle_meter_values-Holds : HandlerHolds (handle_meter_values next)
    unfolding handle_meter_values pure
    handle_meter_values-Holds req =
        let instance leaves = Kept-Leaves [] in
        Triple-step _ (transaction_from_data req.message) _ (search handler_rules) (less []) (λ mt.
          Triple-step _ (lift _) _ (search leaf_rules) (less []) (λ given.
            Triple-step _ (lift _) _ (search leaf_rules) (less []) (λ values.
              Triple-step _ (record_meter_values _ _ _) _ (search handler_rules) (less [])
                (λ u. Triple-bind Held _ (next _) _ (holds _) (λ res. record { at = λ w h. h })))))

    -- The answer names the transaction, and is returned with it.
    named-Triple :
        (res : OcppResponse) (fs : Fields) (id : ℕ)
        → Triple
            (Held res)
            Held
            (Kept [])
            (do res' ← update_data res fs; pure (record res' { transaction = some id }))
    unfolding pure
    named-Triple res fs id =
        Triple-bind Held _ (update_data res fs) _ (update_data-Triple res fs)
          (λ res'. record { at = λ w h. h })

    finish_start-Triple :
        (req : OcppRequest) (t : Transaction)
        → Triple (Kept []) Held (Kept []) (finish_start next req t)
    unfolding finish_start
    finish_start-Triple req t =
        let instance leaves = Kept-Leaves [] in
        Triple-step _ _ _ (save_transaction_id-Keeps req.message (some t.id)) (less []) (λ m.
          Triple-step _ utc_now _ (search leaf_rules) (less []) (λ now.
            Triple-step _ _ _ (search leaf_rules) (less [])
              (λ u. Triple-bind Held _ (next _) _ (holds _) (λ res. named-Triple res _ t.id))))

    pub handle_orphaned-Holds :
        HandlerHolds (handle_orphaned_transaction (handle_start_transaction next))
    unfolding handle_orphaned_transaction handle_start_transaction
    handle_orphaned-Holds req =
        let instance leaves = Kept-Leaves [] in
        Triple-step _ (assert_action _ _) _ (search handler_rules) (less []) (λ u.
          Triple-step _ (stop_all _) _ (stop_all-Kept [] _) (less []) (λ v.
            Triple-step _ (open_transaction req) _ (open_transaction-Kept [] req) (less [])
              (λ t. finish_start-Triple req t)))

    pub handle_stop_transaction-Holds : HandlerHolds (handle_stop_transaction next)
    unfolding handle_stop_transaction
    handle_stop_transaction-Holds req =
        let instance leaves = Kept-Leaves [] in
        let instance stopping = Kept-Stops [] in
        Triple-step _ (transaction_from_data req.message) _ (search handler_rules) (less []) (λ mt.
          Triple-step _ (lift _) _ (search leaf_rules) (less []) (λ given_reason.
            Triple-step _ (lift _) _ (search leaf_rules) (less []) (λ reason.
              Triple-step _ (lift _) _ (search leaf_rules) (less []) (λ meter_stop.
                Triple-step _ (stop _ _ _) _ (search leaf_rules) (less []) (λ u.
                  Triple-step _ (lift _) _ (search leaf_rules) (less []) (λ given.
                    Triple-step _ (lift _) _ (search leaf_rules) (less []) (λ data_.
                      Triple-step _ (record_meter_values _ _ _) _ (search handler_rules) (less [])
                        (λ v.
                          Triple-bind Held _ (next _) _ (holds _)
                            (λ res. named-Triple res _ _)))))))))
