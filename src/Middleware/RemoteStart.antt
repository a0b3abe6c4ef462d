-- ===== src/Middleware/RemoteStart.antt =====
-- be/ocpp/services/ocpp/anon/auto_remote_start.py: a charge point that is Preparing is told to start
-- a transaction for an anonymous tag.
pub mod Preparing
use levity.Prelude.{String, Bool, true, false, none, some, [], ◌∷◌, ◌++◌, if◌then◌else◌}
use levity.Dict.{subscript}
use levity.Middleware.Base.{assert_action}
use levity.Models.Exchange.{Handler, OcppRequest, OcppResponse}
use levity.Models.Rows.{Message}
use levity.Models.World.{Exec, pure, lift, ◌>>=◌, ◌>>◌}
use levity.Objects.Effects.{uuid4}
use levity.Objects.Messages.{create_message}
use levity.Platform.{Platform}
use levity.Types.Action.{status_notification, remote_start_transaction, central_system}
use levity.Types.MessageType.{call}
use levity.Types.Status.{ChargePointStatus, preparing, parse_charge_point_status}
use levity.Value.{null, str, obj, entry}

unfoldable pub is_preparing : ChargePointStatus → Bool
is_preparing preparing = true
is_preparing _ = false

-- The command, before it has a key.
abbrev pub remote_start : String → String → Message
remote_start charge_point unique_id = record {
  id = 0;
  charge_point = charge_point;
  transaction = none;
  message_type = call;
  unique_id = str unique_id;
  unique_key = "";
  actor = central_system;
  action = some remote_start_transaction;
  error_code = none;
  error_description = null;
  content = obj (entry "idTag" (str "anonymous"));
  reply = none;
}

module _ ⦃p : Platform⦄ where
  -- The side effect that is added to the answer.
  unfoldable pub add_remote_start : OcppRequest → OcppResponse → Exec OcppResponse
  add_remote_start req res = do
    id ← uuid4
    command ← create_message (remote_start req.message.charge_point id)
    pure (record res { side_effects = res.side_effects ++ command ∷ [] })

  unfoldable pub handle_auto_remote_start : Handler → Handler
  handle_auto_remote_start next req = do
    res ← next req
    assert_action status_notification req.message
    given ← lift (subscript req.message.content "status")
    status ← lift (parse_charge_point_status given)
    if is_preparing status then add_remote_start req res else pure res
