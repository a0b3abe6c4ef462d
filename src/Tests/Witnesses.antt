-- ===== src/Tests/Witnesses.antt =====
-- The theorems on concrete inputs.
use levity.Prelude.{◌≡◌, refl, [], ◌∷◌, some, List, arith, here, there, map}
use levity.Memory.Tables.{latest, next_key}
use levity.Middleware.Core.{accepted_tag}
use levity.Middleware.Base.{handle_response, assert_action, is_action, update_data, blank_response}
use levity.Middleware.Chain.Build.{chain, get_middleware-eq-chain}
use levity.Middleware.Metering.{handle_start_transaction, open_transaction, finish_start}
use levity.Middleware.Orphans.{
  handle_orphaned_transaction, stop_all, stop_orphans, stop_orphan, orphaned_transactions,
  last_reading, value_or_zero, is_energy_of,
}
use levity.Models.Exchange.{OcppResponse}
use levity.Models.World.{Outcome, world_of, done, created, pure, lift, reads, ◌>>=◌, assert, modify}
use levity.Objects.Messages.{create_message, insert_message, save_fields, write_message}
use levity.OneOpen.Events.{consume-OneOpen, start_transaction-Started}
use levity.OneOpen.Rows.{OneOpen, open_count}
use levity.Serialization.{json_encode}
use levity.Services.CallHandler.{middleware_classes, deliver, action_of, default_middleware}
use levity.Services.CallHandler.Silence.{chain_silent}
use levity.Services.Consumer.{consume}
use levity.Services.ResultHandler.{handle_call_result}
use levity.Services.ResultHandler.Linking.{handle_call_result-Links, linked}
use levity.Services.ResultHandler.Originating.{Unique}
use levity.Tests.Samples.{
  start_classes, stored, calm, number, connect_event, start_content, start_event, station,
  call_message, central_call, result_message, request, charging,
}
use levity.Services.CallHandler.Order.{deliver-Sends, Sends, posts, Stored, answer_of}
use levity.Objects.Transactions.{stop, save_charge_point, save_transaction, create_transaction}
use levity.Objects.Effects.{utc_now}
use levity.Receivers.{post_save_message, count_messages, log_messages, is_counted}
use levity.Dict.{subscript, update}
use levity.Value.{lookup, merge, insert, Value, str, field, end, obj, enum_member}
use levity.Models.Rows.{is_open_for, clash, same_actor}
use levity.Memory.{to_text, to_integer, to_json, to_float}
use levity.Services.Settings.{load_ocpp_middleware, load_from_setting, configured}
use levity.Types.Reply.{authorization_status_value}
use levity.Types.Action.{start_transaction, action_value}
use levity.Types.Error.{Result, ok, err, value_error}

abbrev deliveries : List (Result Value)
deliveries = ok connect_event ∷ ok (start_event "7") ∷ err value_error ∷ ok (start_event "8") ∷ []

pub charging-OneOpen : OneOpen charging
unfolding is_open_for
charging-OneOpen cp = ground arith

consume-OneOpen_example :
    OneOpen (consume ⦃p = calm⦄ deliveries (record { world = charging; acknowledged = 0 })).world
consume-OneOpen_example =
    consume-OneOpen ⦃p = calm⦄ deliveries (record { world = charging; acknowledged = 0 }) refl
      charging-OneOpen

abbrev start_run : Outcome OcppResponse
start_run =
    handle_orphaned_transaction ⦃p = calm⦄
      (handle_start_transaction ⦃p = calm⦄ (handle_response ⦃p = calm⦄))
      (request start_transaction start_content) charging

abbrev pub response : OcppResponse
response = record {
  message = record (blank_response (call_message start_transaction start_content)) {
    id = 1;
    unique_key = "7";
    content = obj (
        field "transactionId" (number 1)
          (field "idTagInfo" (obj (field "status" (enum_member (str "Accepted")) end)) end));
  };
  transaction = some 1;
  side_effects = [];
  extra = end;
}

start_returns : start_run ≡ done response (world_of start_run)
unfolding handle_orphaned_transaction stop_all stop_orphans stop_orphan orphaned_transactions
    last_reading value_or_zero is_energy_of stop save_charge_point save_transaction
    create_transaction utc_now handle_start_transaction open_transaction finish_start
    handle_response create_message insert_message post_save_message count_messages log_messages
    is_counted save_fields write_message update_data assert_action is_action subscript lookup update
    merge insert is_open_for created pure lift reads ◌>>=◌ action_value to_text to_integer to_json
    to_float assert modify latest next_key accepted_tag authorization_status_value
start_returns = refl

start_transaction-Started_example :
    (open_count "1234" (world_of start_run).transactions ≡ 1) × OneOpen (world_of start_run)
start_transaction-Started_example =
    start_transaction-Started ⦃p = calm⦄ (request start_transaction start_content) charging
      (world_of start_run) response charging-OneOpen start_returns

start_classes_lem :
    middleware_classes ⦃p = calm⦄ (call_message start_transaction start_content) ≡ ok start_classes
unfolding middleware_classes action_of default_middleware load_ocpp_middleware load_from_setting
    configured
start_classes_lem = refl

chain_silent_example :
    (world_of
      (chain ⦃p = calm⦄ start_classes (request start_transaction start_content) charging)).sent
    ≡ []
chain_silent_example =
    chain_silent ⦃p = calm⦄ (call_message start_transaction start_content) start_classes
      (chain ⦃p = calm⦄ start_classes) (request start_transaction start_content) charging refl
      start_classes_lem (get_middleware-eq-chain ⦃p = calm⦄ start_classes)

stored-Unique : Unique stored
unfolding clash same_actor
stored-Unique = ((refl, tt), (tt, tt))

handle_call_result-Links_example :
    handle_call_result ⦃p = calm⦄ result_message (record charging { messages = stored })
    ≡ done tt (record charging { messages = map (linked result_message central_call) stored })
handle_call_result-Links_example =
    handle_call_result-Links ⦃p = calm⦄ result_message central_call
      (record charging { messages = stored }) stored-Unique (omega arith) (there (here refl))
      (here refl) refl refl refl refl refl

abbrev with_command : OcppResponse
with_command = record response { side_effects = central_call ∷ [] }

with_command-Stored : Stored ⦃p = calm⦄ (answer_of ⦃p = calm⦄ with_command ∷ central_call ∷ [])
unfolding to_json json_encode
with_command-Stored = ((_, refl), ((_, refl), tt))

deliver-Sends_example :
    Sends
      (deliver ⦃p = calm⦄ station (call_message start_transaction start_content) with_command)
      charging
      (posts ⦃p = calm⦄ station (answer_of ⦃p = calm⦄ with_command ∷ central_call ∷ []))
deliver-Sends_example =
    deliver-Sends ⦃p = calm⦄ station (call_message start_transaction start_content) with_command
      charging (λ n. refl) with_command-Stored
