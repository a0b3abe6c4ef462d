-- ===== src/Middleware/RemoteStart/Preparing.antt =====
-- What be/ocpp/services/ocpp/anon/auto_remote_start.py adds to the answer of the rest of its chain.
use levity.Prelude.{
  String, ◌≡◌, ◌≢◌, if◌then◌else◌, ◌∙◌, refl, ap, true, false, ◌+◌, ◌⊎◌, inl, inr, Bool-cases, some,
  none, [], ◌∷◌, ◌++◌, any,
}
use levity.Dict.{subscript}
use levity.Middleware.Base.{assert_action, is_action}
use levity.Middleware.RemoteStart.{
  is_preparing, remote_start, add_remote_start, handle_auto_remote_start,
}
use levity.Models.Exchange.{Handler, OcppRequest, OcppResponse}
use levity.Models.Rows.{Message, clash}
use levity.Models.World.{World, done, pure, assert, ◌>>=◌}
use levity.Objects.Effects.{uuid4}
use levity.Objects.Messages.Storing.{create_message-Stores, Stores}
use levity.Platform.{Platform}
use levity.Types.Action.{
  status_notification, remote_start_transaction, central_system, action_value,
}
use levity.Types.MessageType.{call}
use levity.Types.Error.{ok}
use levity.Types.Status.{ChargePointStatus, preparing, parse_charge_point_status}
use levity.Value.{Value, null, str, obj, entry, field, end}

module _ ⦃p : Platform⦄ where
  -- The command that is added, once it is stored.
  abbrev pub stored_command : String → String → String → World → Message
  stored_command cp id key v = record {
    id = p.message_table.next v.messages;
    charge_point = cp;
    transaction = none;
    message_type = call;
    unique_id = str id;
    unique_key = key;
    actor = central_system;
    action = some remote_start_transaction;
    error_code = none;
    error_description = null;
    content = obj (field "idTag" (str "anonymous") end);
    reply = none;
  }

  handle_added :
      (next : Handler) (req : OcppRequest) (w v : World) (res : OcppResponse) (given : Value)
      (s : ChargePointStatus)
      → next req w ≡ done res v
      → req.message.action ≡ some status_notification
      → subscript req.message.content "status" ≡ ok given
      → parse_charge_point_status given ≡ ok s
      → handle_auto_remote_start next req w
        ≡ (if is_preparing s then add_remote_start req res else pure res) v
  unfolding handle_auto_remote_start assert_action is_action assert action_value ◌>>=◌
  handle_added next req w v res given s ran named has known = rw (ran, named, has, known) refl

  is_preparing_lem : (s : ChargePointStatus) → is_preparing s ≡ true → s ≡ preparing
  unfolding is_preparing
  is_preparing_lem preparing h = refl
  is_preparing_lem _ h = absurd (cc)

  not_preparing : (s : ChargePointStatus) → is_preparing s ≡ false → s ≢ preparing
  unfolding is_preparing
  not_preparing s e same = cc (ap is_preparing same)

  -- The command is stored and added behind the side effects that were there.
  abbrev pub Added : OcppRequest → String → Value → Handler → World → World → OcppResponse → Type 0
  Added req key stored handle w v res =
      let id = p.uuid4 v.ids_drawn in
      let command = stored_command req.message.charge_point id key v in
      (w' : World) × (handle req w
        ≡ done (record res { side_effects = res.side_effects ++ command ∷ [] }) w')
      × Stores (record command { content = stored }) v w'

  add_remote_start_lem :
      (req : OcppRequest) (v : World) (res : OcppResponse) (key : String) (stored : Value)
      → p.char_field 128 (str (p.uuid4 v.ids_drawn)) ≡ ok key
      → p.json_field (obj (entry "idTag" (str "anonymous"))) ≡ ok stored
      → any
          (clash (record (remote_start req.message.charge_point (p.uuid4 v.ids_drawn)) {
            unique_key = key;
            content = stored;
          }))
          v.messages
        ≡ false
      → Added req key stored (λ q w. add_remote_start q res w) v v res
  unfolding add_remote_start uuid4 pure ◌>>=◌
  add_remote_start_lem req v res key stored keyed storable fresh =
      let drawn : World = record v { ids_drawn = v.ids_drawn + 1 } in
      let command = remote_start req.message.charge_point (p.uuid4 v.ids_drawn) in
      let (w', made, told) = create_message-Stores command key stored drawn keyed storable fresh in
      (w', rw made refl, told)

  -- When the rest of the chain returns for a StatusNotification whose status is known, and the id that
  -- is drawn is storable and new and the payload storable: for the status Preparing, one command
  -- RemoteStartTransaction with the tag anonymous is stored and added behind the side effects of the
  -- response, and for every other status the response and the state stay what they are.
  pub handle_auto_remote_start-Added :
      (next : Handler) (req : OcppRequest) (w v : World) (res : OcppResponse) (given : Value)
      (s : ChargePointStatus) (key : String) (stored : Value)
      → next req w ≡ done res v
      → req.message.action ≡ some status_notification
      → subscript req.message.content "status" ≡ ok given
      → parse_charge_point_status given ≡ ok s
      → p.char_field 128 (str (p.uuid4 v.ids_drawn)) ≡ ok key
      → p.json_field (obj (field "idTag" (str "anonymous") end)) ≡ ok stored
      → any
          (clash (record (stored_command req.message.charge_point (p.uuid4 v.ids_drawn) key v) {
            content = stored;
          }))
          v.messages
        ≡ false
      → ((s ≡ preparing) × Added req key stored (handle_auto_remote_start next) w v res)
        ⊎ ((s ≢ preparing) × (handle_auto_remote_start next req w ≡ done res v))
  unfolding is_preparing pure clash
  handle_auto_remote_start-Added next req w v res given s key stored ran named has known keyed
        storable fresh =
      let runs = handle_added next req w v res given s ran named has known in
      elim (Bool-cases (is_preparing s)) [
        | inl e ↦
            let (w', added, told) =
              add_remote_start_lem req v res key stored keyed storable fresh in
            inl (is_preparing_lem s e, (w', runs ∙ rw e added, told))
        | inr e ↦ inr (not_preparing s e, runs ∙ rw e refl)
      ]
