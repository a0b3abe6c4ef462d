-- ===== src/Keys/Calls.antt =====
-- What each call of the backend does to the keys of the messages' table: the ground for the handlers.
use levity.Types.PublishRun.{PublishRun-cases}
use levity.Prelude.{ℕ, String, refl, true, false, inl, inr, List, [], ◌∷◌}
use levity.Keys.{Kept}
use levity.Keys.Writing.{write-Kept, same-everywhere, same-over, insert-Kept}
use levity.Logic.Handlers.{stop_orphans-Keeps}
use levity.Logic.Keeps.{Keeps, Keeps-created}
use levity.Logic.Leaves.{Leaves, Stops, leaf_rules, post_save_message-Keeps}
use levity.Logic.Requests.{Publishes}
use levity.Logic.Triple.{Ends, Triple, Triple-bind, Triple-step, Triple-of_Keeps}
use levity.Middleware.Orphans.{orphaned_transactions, stop_all}
use levity.Middleware.Metering.{open_transaction}
use levity.Models.Exchange.{OcppRequest}
use levity.Models.Rows.{Message, Transaction}
use levity.Models.World.{World, Outcome, done, raised, world_of, pure, lift, modify, ◌>>◌}
use levity.Objects.ChargePoints.{upsert_charge_point, insert_websocket_event}
use levity.Objects.Effects.{utc_now, uuid4}
use levity.Objects.Messages.{insert_message, create_message, write_message, save_message}
use levity.Objects.Meters.{insert_meter_value}
use levity.Objects.Transactions.{create_transaction, save_transaction, stop}
use levity.Platform.{Platform}
use levity.Publisher.{basic_publish}
use levity.Receivers.{post_save_message}

module _ ⦃p : Platform⦄ where
  pub less : (ms : List Message) (w : World) → Kept ms w → Kept [] w
  less ms w h = (h.0, tt)

  inserted-Kept :
      (ms : List Message) (o : Outcome Message)
      → Ends (λ row v. Kept (row ∷ ms) v) (Kept ms) o
      → Kept ms (world_of o)
  inserted-Kept ms (done row v) h = (h.0, h.1.1)
  inserted-Kept ms (raised e v) h = h

  module _ (ms : List Message) where
    pub Kept-Leaves : Leaves (Kept ms)
    unfolding utc_now uuid4 modify levity.Objects.Transactions.save_charge_point upsert_charge_point
        write_message insert_meter_value insert_websocket_event
    Kept-Leaves = record {
      clock = record { at = λ w h. h };
      ids = record { at = λ w h. h };
      counters = λ counter label. record { at = λ w h. h };
      records = λ tag v. record { at = λ w h. h };
      charge_points = λ id f. record { at = λ w h. h };
      upserts = λ id queue. record { at = λ w h. h };
      new_message =
          λ m. record { at = λ w h. inserted-Kept ms (insert_message m w) (insert-Kept ms m w h) };
      messages = λ id f same. record {
        at = λ w h. write-Kept ms id f w (same-everywhere id f w.messages same) h;
      };
      new_meter_value = λ r. record {
        at = λ w h.
            Keeps-created (Kept ms) _ w (p.meter_value_table.create r w.meter_values) h (λ rows. h);
      };
      new_event = λ e. record {
        at = λ w h.
            Keeps-created (Kept ms) _ w (p.websocket_event_table.create e w.websocket_events) h
              (λ rows. h);
      };
    }

    save_transaction-Kept :
        (id : ℕ) (f : Transaction → Transaction) → Keeps (Kept ms) (save_transaction id f)
    unfolding save_transaction
    save_transaction-Kept id f = record { at = λ w h. h }

    pub create_transaction-Kept : (t : Transaction) → Keeps (Kept ms) (create_transaction t)
    unfolding create_transaction
    create_transaction-Kept t = record {
      at = λ w h.
          Keeps-created (Kept ms) _ w (p.transaction_table.create t w.transactions) h (λ rows. h);
    }

    pub Kept-Stops : Stops (Kept ms)
    unfolding stop
    Kept-Stops =
        let instance leaves = Kept-Leaves in
        record { stops = λ t reason v. search (leaf_rules, save_transaction-Kept) depth 20 }

    orphaned_transactions-Kept : (cp : String) → Keeps (Kept ms) (orphaned_transactions cp)
    unfolding orphaned_transactions
    orphaned_transactions-Kept cp = record { at = λ w h. h }

    pub stop_all-Kept : (cp : String) → Keeps (Kept ms) (stop_all cp)
    unfolding stop_all
    stop_all-Kept cp =
        let instance leaves = Kept-Leaves in
        let instance stopping = Kept-Stops in
        search (leaf_rules, stop_orphans-Keeps, orphaned_transactions-Kept) depth 20

    pub open_transaction-Kept : (req : OcppRequest) → Keeps (Kept ms) (open_transaction req)
    unfolding open_transaction
    open_transaction-Kept req =
        let instance leaves = Kept-Leaves in search (leaf_rules, create_transaction-Kept) depth 20

    pub Kept-Publishes : Publishes (Kept ms)
    unfolding basic_publish
    Kept-Publishes = record {
      publishes = λ queue body. record {
        at = λ w h. elim (PublishRun-cases (p.publish_run w.publish_attempts)) [
          | inl r ↦ rw r h
          | inr (e, inl r) ↦ rw r h
          | inr (e, inr r) ↦ rw r h
        ];
      };
    }

    insert-Triple :
        (m : Message) → Triple (Kept ms) (λ row. Kept (row ∷ ms)) (Kept []) (insert_message m)
    insert-Triple m = record { at = λ w h. weaker (insert_message m w) (insert-Kept ms m w h) }
      where
        weaker :
            (o : Outcome Message)
            → Ends (λ row v. Kept (row ∷ ms) v) (Kept ms) o
            → Ends (λ row v. Kept (row ∷ ms) v) (Kept []) o
        weaker (done row v) k = k
        weaker (raised e v) k = (k.0, tt)

  -- Once the row is there, the receivers are told, and the object is returned.
  created-Triple :
      (ms : List Message) (m row : Message)
      → Triple
          (Kept (row ∷ ms))
          (λ n. Kept (n ∷ ms))
          (Kept [])
          (do
            post_save_message (record row { content = m.content }) true
            pure (record row { content = m.content }))
  unfolding pure
  created-Triple ms m row =
      let instance leaves = Kept-Leaves (row ∷ ms) in
      Triple-step _ _ _ (post_save_message-Keeps _ true) (less (row ∷ ms))
        (λ u. record { at = λ w h. h })

  -- An object that was created has a row.
  pub create_message-Triple :
      (ms : List Message) (m : Message)
      → Triple (Kept ms) (λ n. Kept (n ∷ ms)) (Kept []) (create_message m)
  unfolding create_message
  create_message-Triple ms m =
      let instance leaves = Kept-Leaves ms in
      Triple-step _ (lift (p.char_field 128 m.unique_id)) _ (search leaf_rules) (less ms) (λ key.
        Triple-step _ (lift (p.json_field m.content)) _ (search leaf_rules) (less ms) (λ stored.
          Triple-bind (λ row. Kept (row ∷ ms)) _ (insert_message _) _ (insert-Triple ms _)
            (λ row. created-Triple ms m row)))

  -- `save()` of an object that has a row.
  pub save_message-Kept :
      (m : Message) (ms : List Message)
      → Triple (Kept (m ∷ ms)) (λ u. Kept (m ∷ ms)) (Kept []) (save_message m)
  unfolding save_message write_message
  save_message-Kept m ms =
      let instance leaves = Kept-Leaves (m ∷ ms) in
      Triple-step _ (lift (p.json_field m.content)) _ (search leaf_rules) (less (m ∷ ms)) (λ stored.
        Triple-step _ (write_message m.id _) _
          (record {
            at = λ w h.
                write-Kept (m ∷ ms) m.id _ w
                  (same-over m (λ row. record m { content = stored }) w.messages
                    (λ s. (refl, refl, refl)) h.0 h.1.0)
                  h;
          })
          (less (m ∷ ms))
          (λ u. Triple-of_Keeps _ (post_save_message-Keeps m false) (λ w h. h) (less (m ∷ ms))))
