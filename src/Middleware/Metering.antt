-- ===== src/Middleware/Metering.antt =====
-- be/ocpp/services/ocpp/core: meter_values.py, start_transaction.py and stop_transaction.py.
use levity.Prelude.{ℕ, Bool, true, false, none, some, pos}
use levity.Dict.{get, subscript, elements}
use levity.Middleware.Base.{update_data}
use levity.Middleware.Core.{accepted_tag}
use levity.Models.Exchange.{Handler, OcppRequest, OcppResponse}
use levity.Models.Rows.{Transaction}
use levity.Models.World.{Exec, pure, lift, ◌>>=◌, ◌>>◌}
use levity.Objects.Effects.{utc_now}
use levity.Objects.Messages.{save_fields, transaction_from_data}
use levity.Objects.Meters.{create_from_json}
use levity.Objects.Transactions.{save_charge_point, create_transaction, stop}
use levity.Platform.{Platform}
use levity.Types.Reason.{parse_stop_reason}
use levity.Value.{Value, null, num, arr, Items, nil, cons, field, or_else}

module _ ⦃p : Platform⦄ where
  -- `for sampled_value in meter_value["sampledValue"]`
  unfoldable pub record_samples : ℕ → Bool → Value → Items → Exec (Unit {0})
  record_samples transaction is_final meter_value nil = pure tt
  record_samples transaction is_final meter_value (cons sample samples) = do
    timestamp ← lift (subscript meter_value "timestamp")
    create_from_json transaction timestamp sample is_final
    record_samples transaction is_final meter_value samples

  -- `for meter_value in …`
  unfoldable pub record_meter_values : ℕ → Bool → Items → Exec (Unit {0})
  record_meter_values transaction is_final nil = pure tt
  record_meter_values transaction is_final (cons meter_value rest) = do
    sampled ← lift (subscript meter_value "sampledValue")
    samples ← lift (elements sampled)
    record_samples transaction is_final meter_value samples
    record_meter_values transaction is_final rest

  unfoldable pub handle_meter_values : Handler → Handler
  handle_meter_values next req = do
    (message, transaction) ← transaction_from_data req.message
    given ← lift (subscript message.content "meterValue")
    meter_values ← lift (elements given)
    record_meter_values transaction.id false meter_values
    res ← next (record req { message = message })
    pure (record res { transaction = some transaction.id })

  -- The row that start_transaction.py creates.
  unfoldable pub open_transaction : OcppRequest → Exec Transaction
  open_transaction req = do
    let content = req.message.content
    connector ← lift (subscript content "connectorId")
    tag ← lift (subscript content "idTag")
    meter ← lift (subscript content "meterStart")
    now ← utc_now
    connector_id ← lift (p.char_field 64 connector)
    id_tag ← lift (p.char_field 256 tag)
    meter_start ← lift (p.integer_field meter)
    create_transaction (record {
      id = 0;
      charge_point = req.message.charge_point;
      started_at = some now;
      stopped_at = none;
      connector_id = connector_id;
      id_tag = id_tag;
      meter_start = meter_start;
      meter_stop = pos 0;
      meter_correction = pos 0;
      stop_reason = none;
    })

  -- What follows the creation of the row.
  unfoldable pub finish_start : Handler → OcppRequest → Transaction → Exec OcppResponse
  finish_start next req transaction = do
    message ← save_fields req.message (λ row. record row { transaction = some transaction.id })
    now ← utc_now
    save_charge_point req.charge_point.id (λ row. record row { last_tx_start_at = some now })
    res ← next (record req { message = message })
    res' ← update_data res (field "transactionId" (num (pos transaction.id) 0) accepted_tag)
    pure (record res' { transaction = some transaction.id })

  unfoldable pub handle_start_transaction : Handler → Handler
  handle_start_transaction next req = do
    transaction ← open_transaction req
    finish_start next req transaction

  unfoldable pub handle_stop_transaction : Handler → Handler
  handle_stop_transaction next req = do
    (message, transaction) ← transaction_from_data req.message
    given_reason ← lift (subscript message.content "reason")
    reason ← lift (parse_stop_reason given_reason)
    meter_stop ← lift (subscript message.content "meterStop")
    stop transaction reason meter_stop
    given ← lift (get message.content "transactionData" null)
    transaction_data ← lift (elements (or_else given (arr nil)))
    record_meter_values transaction.id true transaction_data
    res ← next (record req { message = message })
    res' ← update_data res accepted_tag
    pure (record res' { transaction = some transaction.id })
