-- ===== src/Tests/Stops.antt =====
-- A StopTransaction for the open transaction of the samples.
use levity.Prelude.{ℕ, ℤ, ◌≡◌, refl, [], map, some}
use levity.Dict.{subscript, get, elements, update}
use levity.Memory.{to_text, to_integer, to_json}
use levity.Memory.Tables.{next_key}
use levity.Middleware.Base.{handle_response, blank_response, update_data}
use levity.Middleware.Core.{accepted_tag}
use levity.Middleware.Metering.{handle_stop_transaction, record_meter_values}
use levity.Models.Exchange.{OcppResponse}
use levity.Models.Rows.{Transaction, clash, same_actor}
use levity.Models.World.{Outcome, done, world_of, created, pure, lift, reads, modify, ◌>>=◌}
use levity.Objects.Effects.{utc_now}
use levity.Objects.Messages.{
  create_message, insert_message, save_fields, write_message, transaction_from_data,
  link_transaction, has_id,
}
use levity.Objects.Transactions.{stop, save_charge_point, save_transaction}
use levity.OneOpen.Naming.{IsNamed}
use levity.OneOpen.Finishing.{SaysEnd, stop_transaction-Finished}
use levity.OneOpen.Rows.{stop_at}
use levity.Receivers.{post_save_message, count_messages, log_messages, is_counted}
use levity.Tests.Samples.{calm, charging, call_message, number, request}
use levity.Types.Action.{stop_transaction}
use levity.Types.Reason.{StopReason, parse_stop_reason}
use levity.Types.Reply.{authorization_status_value}
use levity.Value.{Fields, field, str, obj, end, enum_member, lookup, merge, insert, or_else, truthy}

abbrev stop_content : Fields
stop_content =
    field "transactionId" (number 0)
      (field "reason" (str "Local") (field "meterStop" (number 90) end))

abbrev stop_run : Outcome OcppResponse
stop_run =
    handle_stop_transaction ⦃p = calm⦄ (handle_response ⦃p = calm⦄)
      (request stop_transaction stop_content) charging

abbrev stop_response : OcppResponse
stop_response = record {
  message = record (blank_response (call_message stop_transaction stop_content)) {
    id = 1;
    unique_key = "7";
    content = obj (field "idTagInfo" (obj (field "status" (enum_member (str "Accepted")) end)) end);
  };
  transaction = some 0;
  side_effects = [];
  extra = end;
}

stop_returns : stop_run ≡ done stop_response (world_of stop_run)
unfolding handle_stop_transaction stop save_charge_point save_transaction utc_now handle_response
    create_message insert_message post_save_message count_messages log_messages is_counted
    save_fields write_message update_data subscript lookup update merge insert created pure lift
    reads ◌>>=◌ to_text to_integer to_json modify next_key accepted_tag authorization_status_value
    transaction_from_data link_transaction has_id parse_stop_reason record_meter_values get elements
    or_else truthy clash same_actor
stop_returns = refl

stop_transaction-Finished_example :
    (t : Transaction) × (reason : StopReason) × (meter : ℤ) × (now : ℕ) × IsNamed ⦃p = calm⦄
      (obj stop_content)
      charging.transactions
      t
    × SaysEnd ⦃p = calm⦄ (obj stop_content) reason meter
    × ((world_of stop_run).transactions ≡ map (stop_at t.id reason meter now) charging.transactions)
    × (stop_response.transaction ≡ some t.id)
stop_transaction-Finished_example =
    stop_transaction-Finished ⦃p = calm⦄ (request stop_transaction stop_content) charging
      (world_of stop_run) stop_response stop_returns
