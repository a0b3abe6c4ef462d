-- ===== src/Logic/Leaves.antt =====
-- The calls that touch the state directly, as an interface to the proofs about the code above them.
use levity.Prelude.{ℕ, String, Bool, ◌≡◌, refl, Option}
use levity.Logic.Keeps.{Keeps, Keeps-if, keeps_rules}
use levity.Models.Rows.{ChargePoint, Message, MeterValue, WebsocketEvent, Transaction}
use levity.Models.World.{World, modify}
use levity.Objects.ChargePoints.{
  upsert_charge_point, update_or_create_charge_point, insert_websocket_event,
  create_websocket_event,
}
use levity.Objects.Effects.{utc_now, uuid4}
use levity.Objects.Messages.{
  insert_message, create_message, write_message, save_fields, save_message, link_transaction,
  transaction_from_data, from_occp,
}
use levity.Objects.Meters.{insert_meter_value, text_column, create_from_json}
use levity.Objects.Transactions.{save_charge_point, stop}
use levity.Platform.{Platform}
use levity.Receivers.{
  count, emit, count_messages, log_messages, post_save_message, count_websocket_events,
  log_websocket_events, post_save_websocket_event,
}
use levity.Types.Action.{WebsocketEventType, Action}
use levity.Types.Reason.{StopReason}
use levity.Value.{Value}

-- An assignment to other columns than the key and those of the unique constraint.
abbrev pub SameKey : (Message → Message) → Type 0
SameKey f =
    (r : Message) → ((f r).id ≡ r.id) × ((f r).actor ≡ r.actor) × ((f r).unique_key ≡ r.unique_key)

module _ ⦃p : Platform⦄ where
  pub record Leaves (P : World → Type 0) : Type 0 where
    pub clock : Keeps P utc_now
    pub ids : Keeps P uuid4
    pub counters : (counter label : String) → Keeps P (modify (count counter label))
    pub records : (tag : String) (v : Value) → Keeps P (modify (emit tag v))
    pub charge_points :
        (id : String) (f : ChargePoint → ChargePoint) → Keeps P (save_charge_point id f)
    pub upserts : (id queue : String) → Keeps P (upsert_charge_point id queue)
    pub new_message : (m : Message) → Keeps P (insert_message m)
    pub messages : (id : ℕ) (f : Message → Message) → SameKey f → Keeps P (write_message id f)
    pub new_meter_value : (r : MeterValue) → Keeps P (insert_meter_value r)
    pub new_event : (e : WebsocketEvent) → Keeps P (insert_websocket_event e)

  -- And a write of any columns.
  pub record Rewrites (P : World → Type 0) : Type 0 where
    pub rewrites : (id : ℕ) (f : Message → Message) → Keeps P (write_message id f)

  -- And what stopping a transaction keeps.
  pub record Stops (P : World → Type 0) : Type 0 where
    pub stops : (t : Transaction) (reason : StopReason) (v : Value) → Keeps P (stop t reason v)

module _ ⦃p : Platform⦄ {P : World → Type 0} ⦃leaves : Leaves P⦄ where
  pub utc_now-Keeps : Keeps P utc_now
  utc_now-Keeps = leaves.clock

  pub uuid4-Keeps : Keeps P uuid4
  uuid4-Keeps = leaves.ids

  pub count-Keeps : (counter label : String) → Keeps P (modify (count counter label))
  count-Keeps = leaves.counters

  pub emit-Keeps : (tag : String) (v : Value) → Keeps P (modify (emit tag v))
  emit-Keeps = leaves.records

  pub save_charge_point-Keeps :
      (id : String) (f : ChargePoint → ChargePoint) → Keeps P (save_charge_point id f)
  save_charge_point-Keeps = leaves.charge_points

  pub upsert_charge_point-Keeps : (id queue : String) → Keeps P (upsert_charge_point id queue)
  upsert_charge_point-Keeps = leaves.upserts

  pub insert_message-Keeps : (m : Message) → Keeps P (insert_message m)
  insert_message-Keeps = leaves.new_message

  pub write_message-Keeps :
      (id : ℕ) (f : Message → Message) → SameKey f → Keeps P (write_message id f)
  write_message-Keeps = leaves.messages

  pub insert_meter_value-Keeps : (r : MeterValue) → Keeps P (insert_meter_value r)
  insert_meter_value-Keeps = leaves.new_meter_value

  pub insert_websocket_event-Keeps : (e : WebsocketEvent) → Keeps P (insert_websocket_event e)
  insert_websocket_event-Keeps = leaves.new_event

module _ ⦃p : Platform⦄ {P : World → Type 0} ⦃stopping : Stops P⦄ where
  pub stop-Keeps : (t : Transaction) (reason : StopReason) (v : Value) → Keeps P (stop t reason v)
  stop-Keeps = stopping.stops

pub ruleset leaf_rules = (
  keeps_rules, utc_now-Keeps, uuid4-Keeps, count-Keeps, emit-Keeps, save_charge_point-Keeps,
  upsert_charge_point-Keeps, insert_message-Keeps, insert_meter_value-Keeps,
  insert_websocket_event-Keeps, stop-Keeps,
)

module _ ⦃p : Platform⦄ {P : World → Type 0} ⦃leaves : Leaves P⦄ where
  pub post_save_message-Keeps : (m : Message) (b : Bool) → Keeps P (post_save_message m b)
  unfolding post_save_message count_messages log_messages
  post_save_message-Keeps m b = search leaf_rules depth 20

  pub create_message-Keeps : (m : Message) → Keeps P (create_message m)
  unfolding create_message
  create_message-Keeps m = search (leaf_rules, post_save_message-Keeps) depth 20

  save_fields-Keeps : (m : Message) (f : Message → Message) → SameKey f → Keeps P (save_fields m f)
  unfolding save_fields
  save_fields-Keeps m f same =
      search (leaf_rules, post_save_message-Keeps, write_message-Keeps m.id f same) depth 20

  pub save_transaction_id-Keeps :
      (m : Message) (t : Option ℕ) → Keeps P (save_fields m (λ row. record row { transaction = t }))
  save_transaction_id-Keeps m t = save_fields-Keeps m _ (λ r. (refl, refl, refl))

  pub save_reply-Keeps :
      (m : Message) (n : Option ℕ) → Keeps P (save_fields m (λ row. record row { reply = n }))
  save_reply-Keeps m n = save_fields-Keeps m _ (λ r. (refl, refl, refl))

  pub save_action-Keeps :
      (m : Message) (a : Option Action) → Keeps P (save_fields m (λ row. record row { action = a }))
  save_action-Keeps m a = save_fields-Keeps m _ (λ r. (refl, refl, refl))

  pub transaction_from_data-Keeps : (m : Message) → Keeps P (transaction_from_data m)
  unfolding transaction_from_data link_transaction
  transaction_from_data-Keeps m = search (leaf_rules, save_transaction_id-Keeps) depth 20

  pub from_occp-Keeps : (cp : ChargePoint) (event : Value) → Keeps P (from_occp cp event)
  unfolding from_occp
  from_occp-Keeps cp event = search (leaf_rules, create_message-Keeps) depth 20

  pub create_from_json-Keeps :
      (t : ℕ) (timestamp sample : Value) (is_final : Bool)
      → Keeps P (create_from_json t timestamp sample is_final)
  unfolding create_from_json text_column
  create_from_json-Keeps t timestamp sample is_final = search leaf_rules depth 20

  pub update_or_create_charge_point-Keeps :
      (id queue : Value) → Keeps P (update_or_create_charge_point id queue)
  unfolding update_or_create_charge_point
  update_or_create_charge_point-Keeps id queue = search leaf_rules depth 20

  pub create_websocket_event-Keeps :
      (cp : String) (timestamp : ℕ) (type : WebsocketEventType)
      → Keeps P (create_websocket_event cp timestamp type)
  unfolding create_websocket_event post_save_websocket_event count_websocket_events
      log_websocket_events
  create_websocket_event-Keeps cp timestamp type = search leaf_rules depth 20

module _ ⦃p : Platform⦄ {P : World → Type 0} ⦃leaves : Leaves P⦄ ⦃rewriting : Rewrites P⦄ where
  pub save_message-Keeps : (m : Message) → Keeps P (save_message m)
  unfolding save_message
  save_message-Keeps m = search (leaf_rules, post_save_message-Keeps, rewriting.rewrites) depth 20
