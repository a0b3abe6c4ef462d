-- ===== src/OneOpen/Events.antt =====
-- The open transactions of the charge points, over be/ocpp/services/queue_consumer.py and over the
-- chain of StartTransaction.
use levity.Prelude.{◌≤◌, String, ◌≡◌, List, inl, inr}
use levity.Logic.Handlers.{handle_response-Keeps}
use levity.Logic.Keeps.{Keeps}
use levity.Logic.Leaves.{Stops}
use levity.Logic.Requests.{Publishes, Starts, Calls, default-Calls, consume-Keeps}
use levity.Logic.Triple.{Ends-world_of}
use levity.Middleware.Base.{handle_response}
use levity.Middleware.Metering.{handle_start_transaction}
use levity.Middleware.Orphans.{handle_orphaned_transaction}
use levity.Models.Exchange.{OcppRequest, OcppResponse}
use levity.Models.Rows.{Transaction}
use levity.Models.World.{World, done}
use levity.Objects.Transactions.{stop}
use levity.OneOpen.Rows.{open_count, OneOpen}
use levity.OneOpen.Starting.{
  transactions-Leaves, transactions-Rewrites, handle_orphaned-Triple, Started,
}
use levity.OneOpen.Stopping.{stop-Stopped, OneOpen-Stopped}
use levity.Platform.{Platform, missing}
use levity.Publisher.{basic_publish}
use levity.Services.Consumer.{Queue, consume}
use levity.Types.PublishRun.{PublishRun-cases}
use levity.Types.Error.{Result}
use levity.Value.{Value}

module _ ⦃p : Platform⦄ where
  pub basic_publish-transactions :
      (Q : List Transaction → Type 0) (queue : String) (body : Value)
      → Keeps (λ w. Q w.transactions) (basic_publish queue body)
  unfolding basic_publish
  basic_publish-transactions Q queue body = record {
    at = λ w h. elim (PublishRun-cases (p.publish_run w.publish_attempts)) [
      | inl r ↦ rw r h
      | inr (e, inl r) ↦ rw r h
      | inr (e, inr r) ↦ rw r h
    ];
  }

  OneOpen-Stops : Stops OneOpen
  OneOpen-Stops = record {
    stops = λ t reason v. record {
      at = λ w h. OneOpen-Stopped t reason w (stop t reason v w) (stop-Stopped t reason v w) h;
    };
  }

  OneOpen-Publishes : Publishes OneOpen
  OneOpen-Publishes = record {
    publishes = basic_publish-transactions (λ rows. (cp : String) → open_count cp rows ≤ 1);
  }

  OneOpen-Starts : Starts OneOpen
  OneOpen-Starts = record {
    starts = λ next keeps req. record {
      at = λ w h. Ends-world_of OneOpen _ (
          (handle_orphaned-Triple next req (λ rows. (cp : String) → open_count cp rows ≤ 1)
              (λ rows s. s.0) (λ rows g. g) keeps).at
            w h);
    };
  }

  -- With no OCPP_MIDDLEWARE setting, from a state in which every charge point has at most one open
  -- transaction, any row of deliveries, well formed or not, leads to such a state, also where a
  -- handler raises halfway.
  pub consume-OneOpen :
      (bodies : List (Result Value)) (q : Queue)
      → p.ocpp_middleware ≡ missing
      → OneOpen q.world
      → OneOpen (consume bodies q).world
  consume-OneOpen bodies q unset h =
      let instance leaves = transactions-Leaves (λ rows. (cp : String) → open_count cp rows ≤ 1) in
      let instance stopping = OneOpen-Stops in
      let instance starting = OneOpen-Starts in
      let instance rewriting =
        transactions-Rewrites (λ rows. (cp : String) → open_count cp rows ≤ 1) in
      let instance publishing = OneOpen-Publishes in
      let instance calling : Calls OneOpen = default-Calls unset in consume-Keeps OneOpen bodies q h

  -- When the chain of StartTransaction returns, its charge point has exactly one open transaction,
  -- whatever was open before, and every other still has at most one.
  pub start_transaction-Started :
      (req : OcppRequest) (w w' : World) (res : OcppResponse)
      → OneOpen w
      → handle_orphaned_transaction (handle_start_transaction handle_response) req w ≡ done res w'
      → (open_count req.message.charge_point w'.transactions ≡ 1) × OneOpen w'
  start_transaction-Started req w w' res h e =
      let instance leaves = transactions-Leaves (Started req.message.charge_point) in
      let (one, self) = rw e at (
        (handle_orphaned-Triple handle_response req (Started req.message.charge_point) (λ rows s. s)
            (λ rows s. s.0) handle_response-Keeps).at
          w h) in
      (self, one)
