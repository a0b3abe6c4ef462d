-- ===== src/Objects/Messages.antt =====
-- be/ocpp/models/message.py: `Message.objects.create`, `save`, `transaction_from_data` and
-- `from_occp`. A message's error code and description are null in all that the code creates.
pub mod Frames
pub mod Storing
use levity.Prelude.{
  ℕ, String, Bool, true, false, Option, none, some, List, ℤ, pos, negsuc, ◌==◌, is_none,
  if◌then◌else◌,
}
use levity.Types.Action.{Action, parse_action, ActorType, charge_point}
use levity.Types.Error.{Error, Result, ok, err, value_error}
use levity.Types.ErrorCode.{ErrorCode, parse_error_code}
use levity.Types.MessageType.{
  MessageType, call, call_result, call_error, parse_message_type, same_message_type,
}
use levity.Models.Rows.{ChargePoint, Transaction, Message}
use levity.Models.World.{Exec, World, done, created, pure, raise, lift, reads, ◌>>=◌, ◌>>◌}
use levity.Platform.{Platform}
use levity.Receivers.{post_save_message}
use levity.Dict.{subscript, first}
use levity.Value.{Value, null, arr, Items, nil, cons, truthy}

-- `if x else None`, with the enum's constructor on the value
abbrev optional {ℓ} : {A : Type ℓ} → Bool → Result A → Result (Option A)
optional false r = ok none
optional true (ok a) = ok (some a)
optional true (err e) = err e

-- The fields that `from_occp` takes out of a frame.
pub record Frame : Type 0 where
  pub unique_id : Value
  pub action : Value
  pub error_code : Value
  pub error_description : Value
  pub rest : Items

-- `(_, unique_id, action, *rest) = frame`
unfoldable pub unpack_call : Value → Result Frame
unpack_call (arr (cons t (cons u (cons a rest)))) =
    ok (record {
      unique_id = u;
      action = a;
      error_code = null;
      error_description = null;
      rest = rest;
    })
unpack_call v = err value_error

-- `(_, unique_id, *rest) = frame`
unfoldable pub unpack_call_result : Value → Result Frame
unpack_call_result (arr (cons t (cons u rest))) = ok (record {
  unique_id = u;
  action = null;
  error_code = null;
  error_description = null;
  rest = rest;
})
unpack_call_result v = err value_error

-- `(_, unique_id, error_code, error_description, *rest) = frame`
unfoldable pub unpack_call_error : Value → Result Frame
unpack_call_error (arr (cons t (cons u (cons c (cons d rest))))) =
    ok (record { unique_id = u; action = null; error_code = c; error_description = d; rest = rest })
unpack_call_error v = err value_error

-- `rest[0] if rest else None`
unfoldable pub payload : Items → Value
payload nil = null
payload (cons v vs) = v

unfoldable pub unpack : MessageType → Value → Result Frame
unpack t frame =
    if same_message_type t call
    then unpack_call frame
    else if same_message_type t call_result
    then unpack_call_result frame
    else if same_message_type t call_error
    then unpack_call_error frame
    else err value_error

-- Whether a transaction has the key that a request names.
unfoldable pub has_id : ℤ → Transaction → Bool
has_id (pos n) t = t.id == n
has_id (negsuc n) t = false

module _ ⦃p : Platform⦄ where
  -- The INSERT, and the object with its new key.
  unfoldable pub insert_message : Message → Exec Message
  insert_message m w =
      created (λ rows. record w { messages = rows }) w (p.message_table.create m w.messages)

  -- `Message.objects.create(…)`. The columns are converted first; the object keeps its attributes.
  unfoldable pub create_message : Message → Exec Message
  create_message m = do
    key ← lift (p.char_field 128 m.unique_id)
    stored ← lift (p.json_field m.content)
    row ← insert_message (record m { unique_key = key; content = stored })
    post_save_message (record row { content = m.content }) true
    pure (record row { content = m.content })

  unfoldable pub write_message : ℕ → (Message → Message) → Exec (Unit {0})
  write_message id f w = done tt (record w { messages = p.message_table.save id f w.messages })

  -- `message.save(update_fields=[…])` after an assignment; returns the object.
  unfoldable pub save_fields : Message → (Message → Message) → Exec Message
  save_fields m f = do write_message m.id f; post_save_message (f m) false; pure (f m)

  -- `message.save()`: every column.
  unfoldable pub save_message : Message → Exec (Unit {0})
  save_message m = do
    stored ← lift (p.json_field m.content)
    write_message m.id (λ row. record m { content = stored })
    post_save_message m false

  -- `if not self.transaction: …`
  unfoldable pub link_transaction : Message → ℕ → Exec Message
  link_transaction m id =
      if is_none m.transaction
      then save_fields m (λ row. record row { transaction = some id })
      else pure m

  -- The transaction that the payload names, and the message, linked to it.
  unfoldable pub transaction_from_data : Message → Exec (Message × Transaction)
  transaction_from_data m = do
    given ← lift (subscript m.content "transactionId")
    id ← lift (p.integer_field given)
    transaction ← reads (λ w. lift (p.transaction_table.get (has_id id) w.transactions))
    m' ← link_transaction m transaction.id
    pure (m', transaction)

  unfoldable pub from_occp : ChargePoint → Value → Exec Message
  from_occp cp event = do
    frame ← lift (subscript event "message")
    number ← lift (first frame)
    message_type ← lift (parse_message_type number)
    parts ← lift (unpack message_type frame)
    action ← lift (optional (truthy parts.action) (parse_action parts.action))
    error_code ← lift (optional (truthy parts.error_code) (parse_error_code parts.error_code))
    create_message (record {
      id = 0;
      charge_point = cp.id;
      transaction = none;
      message_type = message_type;
      unique_id = parts.unique_id;
      unique_key = "";
      actor = charge_point;
      action = action;
      error_code = error_code;
      error_description = parts.error_description;
      content = payload parts.rest;
      reply = none;
    })
