-- ===== src/OneOpen/Starting.antt =====
-- Starting a transaction: be/ocpp/services/ocpp/automation/orphaned_transaction.py around
-- be/ocpp/services/ocpp/core/start_transaction.py.
use levity.Prelude.{ℕ, ◌≤◌, String, ◌≡◌, refl, false, List, [], ◌∷◌, none, any}
use levity.Logic.Handlers
use levity.Logic.Handlers.{HandlerKeeps, handler_rules, assert_action-Keeps}
use levity.Logic.Keeps.{Keeps-created, Keeps-lift}
use levity.Logic.Leaves.{Leaves, Rewrites}
use levity.Logic.Triple.{Ends, Triple, Triple-bind, Triple-step, Triple-of_Keeps}
use levity.Middleware.Base.{assert_action}
use levity.Middleware.Metering.{open_transaction, finish_start, handle_start_transaction}
use levity.Middleware.Orphans.{orphaned_transactions, stop_all, handle_orphaned_transaction}
use levity.Models.Exchange.{Handler, OcppRequest}
use levity.Models.Rows.{Transaction}
use levity.Models.World.{Exec, Outcome, done, raised, created, modify, lift, ◌>>=◌}
use levity.Types.Error.{Result}
use levity.Types.Action.{start_transaction}
use levity.Objects.ChargePoints.{upsert_charge_point, insert_websocket_event}
use levity.Objects.Effects.{utc_now, uuid4}
use levity.Objects.Messages.{insert_message, write_message}
use levity.Objects.Meters.{insert_meter_value}
use levity.Objects.Transactions.{create_transaction, save_charge_point}
use levity.OneOpen.Rows.{open_count, OneOpen, NoneOpen, open_count_new, open_count_new_self}
use levity.OneOpen.Stopping.{Closed, stop_orphans-Closed, orphans-Left}
use levity.Platform.{Platform}

-- What the other tables undergo keeps a property of the transactions.
pub transactions-Leaves :
    ⦃p : Platform⦄ (Q : List Transaction → Type 0) → Leaves (λ w. Q w.transactions)
unfolding utc_now uuid4 modify save_charge_point upsert_charge_point insert_message write_message
    insert_meter_value insert_websocket_event
transactions-Leaves ⦃p⦄ Q = record {
  clock = record { at = λ w h. h };
  ids = record { at = λ w h. h };
  counters = λ counter label. record { at = λ w h. h };
  records = λ tag v. record { at = λ w h. h };
  charge_points = λ id f. record { at = λ w h. h };
  upserts = λ id queue. record { at = λ w h. h };
  new_message = λ m. record {
    at = λ w h.
        Keeps-created (λ v. Q v.transactions) _ w (p.message_table.create m w.messages) h
          (λ rows. h);
  };
  messages = λ id f same. record { at = λ w h. h };
  new_meter_value = λ r. record {
    at = λ w h.
        Keeps-created (λ v. Q v.transactions) _ w (p.meter_value_table.create r w.meter_values) h
          (λ rows. h);
  };
  new_event = λ e. record {
    at = λ w h.
        Keeps-created (λ v. Q v.transactions) _ w
          (p.websocket_event_table.create e w.websocket_events) h (λ rows. h);
  };
}

pub transactions-Rewrites :
    ⦃p : Platform⦄ (Q : List Transaction → Type 0) → Rewrites (λ w. Q w.transactions)
unfolding write_message
transactions-Rewrites Q = record { rewrites = λ id f. record { at = λ w h. h } }

module _ ⦃p : Platform⦄ where
  -- Before the new row: at most one open each, and none for this charge point.
  abbrev Ready : String → List Transaction → Type 0
  Ready cp rows = ((c : String) → open_count c rows ≤ 1) × NoneOpen cp rows

  any_never : (t : Transaction) (rows : List Transaction) → any (λ s. false) rows ≡ false
  any_never t [] = refl
  any_never t (r ∷ rs) = any_never t rs

  -- After it: the new row is the one that is open.
  abbrev pub Started : String → List Transaction → Type 0
  Started cp rows = ((c : String) → open_count c rows ≤ 1) × (open_count cp rows ≡ 1)

  -- The steps up to the creation of the row.
  Opens : {A : Type 0} → String → Exec A → Type 0
  Opens cp m = Triple (λ w. Ready cp w.transactions) (λ row w. Started cp w.transactions) OneOpen m

  Opens-create_transaction :
      (t : Transaction) → t.stopped_at ≡ none → Opens t.charge_point (create_transaction t)
  unfolding Opens create_transaction created
  Opens-create_transaction t new = record {
    at = λ w h.
        rw (p.transaction_table.create_lem t w.transactions, any_never t w.transactions)
          (
            λ cp. open_count_new cp _ w.transactions new h.1 (h.0 cp),
            open_count_new_self _ w.transactions new h.1,
          );
  }

  Opens-lift :
      {A B : Type 0} (cp : String) (r : Result A) (f : A → Exec B)
      → ((a : A) → Opens cp (f a))
      → Opens cp (lift r >>= f)
  unfolding Opens
  Opens-lift cp r f k =
      Triple-step (λ b w. Started cp w.transactions) (lift r) f (Keeps-lift r) (λ w h. h.0) k

  Opens-utc_now :
      {B : Type 0} (cp : String) (f : ℕ → Exec B)
      → ((a : ℕ) → Opens cp (f a))
      → Opens cp (utc_now >>= f)
  unfolding Opens
  Opens-utc_now cp f k =
      Triple-step (λ b w. Started cp w.transactions) utc_now f
        (transactions-Leaves (Ready cp)).clock (λ w h. h.0) k

  open_transaction-Opens :
      (req : OcppRequest) → Opens req.message.charge_point (open_transaction req)
  unfolding open_transaction Opens
  open_transaction-Opens req = search (Opens-lift, Opens-utc_now, Opens-create_transaction) depth 30

-- The rest of the handler, for a property that holds once the row is there.
module _ ⦃p : Platform⦄ (next : Handler) (req : OcppRequest) (G : List Transaction → Type 0)
    (from : (rows : List Transaction) → Started req.message.charge_point rows → G rows)
    (one : (rows : List Transaction) → G rows → (cp : String) → open_count cp rows ≤ 1)
    (keeps : HandlerKeeps (λ w. G w.transactions) next) where
  handle_start-Triple :
      Triple
        (λ w. Ready req.message.charge_point w.transactions)
        (λ res w. G w.transactions)
        OneOpen
        (handle_start_transaction next req)
  unfolding handle_start_transaction Opens
  handle_start-Triple =
      let instance leaves = transactions-Leaves G in
      Triple-bind (λ row w. Started req.message.charge_point w.transactions)
        (λ res w. G w.transactions) (open_transaction req) _ (open_transaction-Opens req)
        (λ t.
          Triple-of_Keeps (finish_start next req t) (Handlers.finish_start-Keeps next keeps req t)
            (λ w. from w.transactions) (λ w. one w.transactions))

  Closed-Ends :
      (o : Outcome (Unit {0}))
      → Closed req.message.charge_point o
      → Ends (λ u w. Ready req.message.charge_point w.transactions) OneOpen o
  Closed-Ends (done u w) h = h
  Closed-Ends (raised e w) h = h

  stop_all-Triple :
      Triple OneOpen
        (λ u w. Ready req.message.charge_point w.transactions)
        OneOpen
        (stop_all req.message.charge_point)
  unfolding stop_all orphaned_transactions ◌>>=◌
  stop_all-Triple = record {
    at = λ w h. Closed-Ends _ (
        stop_orphans-Closed req.message.charge_point _ w (orphans-Left req.message.charge_point w)
          h);
  }

  -- If the whole handler returns, `G` holds, and if it raises, there is still at most one open each.
  pub handle_orphaned-Triple :
      Triple OneOpen
        (λ res w. G w.transactions)
        OneOpen
        (handle_orphaned_transaction (handle_start_transaction next) req)
  unfolding handle_orphaned_transaction
  handle_orphaned-Triple =
      let instance leaves = transactions-Leaves (λ rows. (c : String) → open_count c rows ≤ 1) in
      Triple-step (λ res w. G w.transactions) (assert_action start_transaction req.message) _
        (assert_action-Keeps start_transaction req.message) (λ w h. h)
        (λ u.
          Triple-bind (λ u w. Ready req.message.charge_point w.transactions)
            (λ res w. G w.transactions) (stop_all req.message.charge_point) _ stop_all-Triple
            (λ v. handle_start-Triple))
