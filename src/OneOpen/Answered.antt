-- ===== src/OneOpen/Answered.antt =====
-- The chain of StartTransaction, from the request to the reply.
use levity.Prelude.{String, ◌≡◌, refl, true, false, some, any, [], In}
use levity.Logic.Total.{Total-returns}
use levity.Middleware.Base.{handle_response}
use levity.Middleware.Metering.{handle_start_transaction}
use levity.Middleware.Orphans.{handle_orphaned_transaction}
use levity.Models.Exchange.{OcppRequest, OcppResponse}
use levity.Models.Rows.{Transaction, clash, is_open_for}
use levity.Models.World.{World, done}
use levity.Platform.{Platform}
use levity.Types.Action.{start_transaction}
use levity.Types.Error.{ok}
use levity.Value.{Value, obj, end}
use levity.OneOpen.Opening.{IsStart, IsAnswer, Readable, Open, answer_row, started_content}
use levity.OneOpen.Events.{start_transaction-Started}
use levity.OneOpen.Rows.{OneOpen, open_count}
use levity.OneOpen.Answering.{Opened, handle_orphaned-Total}

module _ ⦃p : Platform⦄ where
  -- From a state in which each charge point has at most one open transaction and every stored
  -- reading, and zero, fits the column of a meter stop, a StartTransaction whose payload fits its
  -- columns, and whose answer's key and payload can be stored beside the messages that are there, is
  -- answered: the chain returns, the reply's transactionId is the key of a stored transaction of the
  -- charge point that is open, its idTagInfo is accepted, no other transaction of the charge point is
  -- open, and the reply is a result of the call's id with no side effects.
  pub start_transaction-answered :
      (req : OcppRequest) (w : World) (key : String) (stored : Value)
      → OneOpen w
      → Readable w.meter_values
      → IsStart req.message.content
      → req.message.action ≡ some start_transaction
      → p.char_field 128 req.message.unique_id ≡ ok key
      → p.json_field (obj end) ≡ ok stored
      → any (clash (answer_row req.message key stored)) w.messages ≡ false
      → (res : OcppResponse) × (w' : World) × (t : Transaction) × (handle_orphaned_transaction
            (handle_start_transaction handle_response)
            req
            w
          ≡ done res w')
        × In t w'.transactions
        × (is_open_for req.message.charge_point t ≡ true)
        × (res.transaction ≡ some t.id)
        × (res.message.content ≡ started_content t)
        × (res.side_effects ≡ [])
        × IsAnswer req.message res.message
        × (open_count req.message.charge_point w'.transactions ≡ 1)
  start_transaction-answered req w key stored one readable start named keyed plain fresh =
      let run = handle_orphaned_transaction (handle_start_transaction handle_response) req in
      let answer = answer_row req.message key stored in
      let (res, w', returned, (t, answered)) =
        Total-returns (Open answer) (Opened answer req.message) run w
          (handle_orphaned-Total answer req key stored start keyed plain refl named)
          (readable, fresh) in
      let (self, others) = start_transaction-Started req w w' res one returned in
      let (linked, content, alone, is_answer, (kept, is_open)) = answered in
      (res, w', t, returned, kept, is_open, linked, content, alone, is_answer, self)
