-- ===== src/Services/Events/Connected.antt =====
-- Connects and disconnects, through handle_websocket_event of
-- be/ocpp/services/websocket_event_handler.py.
use levity.Prelude.{
  ℕ, String, Bool, true, false, ◌≡◌, refl, ap, sym, subst, ◌∙◌, List, [], ◌∷◌, ◌++◌, any,
  Bool-cases, inl, inr,
}
use levity.Dict.{subscript}
use levity.Models.Rows.{ChargePoint, WebsocketEvent}
use levity.Models.World.{World, done, created, modify, pure, ◌>>=◌}
use levity.Objects.ChargePoints.{
  upsert_charge_point, update_or_create_charge_point, insert_websocket_event,
  create_websocket_event,
}
use levity.Objects.Effects.{utc_now}
use levity.Objects.Transactions.{save_charge_point}
use levity.Platform.{Platform}
use levity.Receivers.{
  post_save_websocket_event, count_websocket_events, log_websocket_events, is_disconnect,
}
use levity.Services.Events.{
  handle_connect, handle_disconnect, handle_by_event_type, handle_websocket_event,
}
use levity.Services.Events.Rows.{
  Has, others, upserted, upserted_lem, any-save_it, others-save_it, All-save_it,
}
use levity.Types.Action.{WebsocketEventType, connect, disconnect, parse_websocket_event_type}
use levity.Types.Error.{ok}
use levity.Value.{Value}

abbrev pub event_of : Bool → WebsocketEventType
event_of true = connect
event_of false = disconnect

module _ ⦃p : Platform⦄ where
  any_never : (rows : List WebsocketEvent) → any (λ s. false) rows ≡ false
  any_never [] = refl
  any_never (r ∷ rows) = any_never rows

  -- The event is recorded, and of the tables and the messages sent nothing else changes.
  abbrev pub Recorded : String → WebsocketEventType → World → World → Type 0
  Recorded id type v w =
      (w.messages ≡ v.messages)
      × (w.transactions ≡ v.transactions)
      × (w.meter_values ≡ v.meter_values)
      × (w.sent ≡ v.sent)
      × ((row : WebsocketEvent) × (row.charge_point ≡ id)
          × (row.type ≡ type)
          × (w.websocket_events ≡ v.websocket_events ++ row ∷ []))

  record_event :
      (id : String) (timestamp : ℕ) (up : Bool) (v : World)
      → (w : World) × (create_websocket_event id timestamp (event_of up) v ≡ done tt w)
        × (w.charge_points ≡ v.charge_points)
        × Recorded id (event_of up) v w
  unfolding create_websocket_event insert_websocket_event created post_save_websocket_event
      count_websocket_events is_disconnect log_websocket_events modify pure ◌>>=◌
  record_event id timestamp true v =
      let row : WebsocketEvent = record {
        id = 0;
        charge_point = id;
        type = connect;
        timestamp = timestamp;
      } in
      let made = p.websocket_event_table.create_lem row v.websocket_events in
      elim (Bool-cases p.has_fluentd) [
        | inl e ↦
            rw (made, any_never v.websocket_events, e)
              (_, refl, refl, (refl, refl, refl, refl, (_, refl, refl, refl)))
        | inr e ↦
            rw (made, any_never v.websocket_events, e)
              (_, refl, refl, (refl, refl, refl, refl, (_, refl, refl, refl)))
      ]
  record_event id timestamp false v =
      let row : WebsocketEvent = record {
        id = 0;
        charge_point = id;
        type = disconnect;
        timestamp = timestamp;
      } in
      let made = p.websocket_event_table.create_lem row v.websocket_events in
      elim (Bool-cases p.has_fluentd) [
        | inl e ↦
            rw (made, any_never v.websocket_events, e)
              (_, refl, refl, (refl, refl, refl, refl, (_, refl, refl, refl)))
        | inr e ↦
            rw (made, any_never v.websocket_events, e)
              (_, refl, refl, (refl, refl, refl, refl, (_, refl, refl, refl)))
      ]

  module _ (id queue : String) (up : Bool) where
    -- Its row says so.
    abbrev pub Up : ChargePoint → Type 0
    Up r = (r.is_connected ≡ up) × (r.ws_queue ≡ queue)

    saved :
        (k : String) (g : ChargePoint → ChargePoint) (rows : List ChargePoint)
        → k ≡ id
        → ((r : ChargePoint) → (g r).id ≡ r.id)
        → ((r : ChargePoint) → r.ws_queue ≡ queue → Up (g r))
        → Has id (λ r. r.ws_queue ≡ queue) rows
        → Has id Up (p.charge_point_table.save k g rows)
          × (others id (p.charge_point_table.save k g rows) ≡ others id rows)
    saved k g rows named same sets h =
        rw (p.charge_point_table.save_lem k g rows, named)
          (
            (
              any-save_it id g same rows ∙ h.0,
              All-save_it id g same (λ r. r.ws_queue ≡ queue) Up sets rows h.1,
            ),
            others-save_it id g same rows,
          )

    -- What the handling comes to.
    abbrev pub Follows : World → World → Type 0
    Follows v w =
        Has id Up w.charge_points
        × (others id w.charge_points ≡ others id v.charge_points)
        × Recorded id (event_of up) v w

    recorded-Follows :
        (k : String) (g : ChargePoint → ChargePoint) (timestamp n : ℕ) (v : World)
        → k ≡ id
        → ((r : ChargePoint) → (g r).id ≡ r.id)
        → ((r : ChargePoint) → r.ws_queue ≡ queue → Up (g r))
        → Has id (λ r. r.ws_queue ≡ queue) v.charge_points
        → (w : World) × (create_websocket_event k timestamp (event_of up) (record v {
          charge_points = p.charge_point_table.save k g v.charge_points;
          clock_reads = n;
        })
            ≡ done tt w)
          × Follows v w
    recorded-Follows k g timestamp n v named same sets h =
        let saved_v = record v {
          charge_points = p.charge_point_table.save k g v.charge_points;
          clock_reads = n;
        } in
        let (w, ran, rows, told) = record_event k timestamp up saved_v in
        let (has, rest) = saved k g v.charge_points named same sets h in
        (
          w,
          ran,
          (
            subst (Has id Up) (sym rows) has,
            ap (others id) rows ∙ rest,
            subst (λ c. Recorded c (event_of up) v w) named told,
          ),
        )

  handle_by_event_type-Follows :
      (id queue : String) (up : Bool) (row : ChargePoint) (event : Value) (v : World)
      → row.id ≡ id
      → Has id (λ r. r.ws_queue ≡ queue) v.charge_points
      → (w : World) × (handle_by_event_type (event_of up) row event v ≡ done tt w)
        × Follows id queue up v w
  unfolding handle_by_event_type handle_connect handle_disconnect utc_now save_charge_point ◌>>=◌
  handle_by_event_type-Follows id queue true row event v named h =
      recorded-Follows id queue true row.id _ _ _ v named (λ r. refl) (λ r e. (refl, e)) h
  handle_by_event_type-Follows id queue false row event v named h =
      recorded-Follows id queue false row.id _ _ _ v named (λ r. refl) (λ r e. (refl, e)) h

  -- A connect or a disconnect event whose id and queue fit their columns is handled: the call returns,
  -- the charge point has a row, each row of it has the queue of the event and says whether it is
  -- connected, the rows of all others are as they were, one event of the charge point is recorded, and
  -- no message, transaction or reading changes and nothing is sent.
  pub handle_websocket_event-Follows :
      (up : Bool) (event given_id given_queue type : Value) (id queue : String) (w : World)
      → subscript event "id" ≡ ok given_id
      → subscript event "queue" ≡ ok given_queue
      → subscript event "type" ≡ ok type
      → parse_websocket_event_type type ≡ ok (event_of up)
      → p.char_field 128 given_id ≡ ok id
      → p.char_field 256 given_queue ≡ ok queue
      → (w' : World) × (handle_websocket_event event w ≡ done tt w') × Follows id queue up w w'
  unfolding handle_websocket_event update_or_create_charge_point upsert_charge_point ◌>>=◌
  handle_websocket_event-Follows up event i q ty id queue w has_id has_queue has_type known fits
        fits' =
      let (named, has, rest) = upserted_lem id queue w.charge_points in
      let v : World = record w { charge_points = (upserted id queue w.charge_points).1 } in
      let (w', ran, (now_has, same, told)) =
        handle_by_event_type-Follows id queue up (upserted id queue w.charge_points).0 event v named
          has in
      (w', rw (has_id, has_queue, fits, fits', has_type, known) ran, (now_has, same ∙ rest, told))
