-- ===== src/Gateway/Client.antt =====
-- ChargePointClient of ws/src/levity_ws/cp.py, without its consumer of the command queue.
use levity.Prelude.{
  ℕ, ◌+◌, String, false, none, some, [], ◌∷◌, str_eq, keep, any, not, if◌then◌else◌,
}
use levity.Dict.{first}
use levity.Gateway.State.{Client, Gateway, Runtime, Ending, returned, failed, after, and_then}
use levity.Types.Error.{Result, ok, err, index_error, key_error, type_error, attribute_error}
use levity.Types.MessageType.{MessageType, call, call_result, parse_message_type}
use levity.Value.{Value, str, arr, obj, cons}

-- `v[1]`
unfoldable pub second : Value → Result Value
second (arr (cons u (cons v vs))) = ok v
second (arr xs) = err index_error
second (str (String.◌∷◌ c (String.◌∷◌ d t))) = ok (str (String.◌∷◌ d String.[]))
second (str t) = err index_error
second (obj fs) = err key_error
second v = err type_error

-- ChargePointClient(id, websocket)
unfoldable pub new_client : ℕ → Client
new_client websocket = record {
  websocket = websocket;
  awaiting_replies = [];
  has_exchange = false;
  failure = none;
}

-- `MessageType(message[0])`
unfoldable pub type_of : Value → Result MessageType
type_of message = elim (first message) [ err e ↦ err e | ok v ↦ parse_message_type v ]

-- Set the event of a reply that is awaited, and forget it.
unfoldable pub take_reply : Client → String → Client
take_reply c reply_id =
    if any (λ k. str_eq k reply_id) c.awaiting_replies
    then record c { awaiting_replies = keep (λ k. not (str_eq k reply_id)) c.awaiting_replies }
    else c

module _ ⦃r : Runtime⦄ where
  unfoldable pub handle_reply : MessageType → Client → Value → Result Client
  handle_reply call c message = ok c
  handle_reply call_result c message = elim (second message) [
    | err e ↦ err e
    | ok reply ↦ elim (r.hash_key reply) [ err e ↦ err e | ok k ↦ ok (take_reply c k) ]
  ]

  -- `handle_message_from_charge_point`: the client as it is after it.
  unfoldable pub handle_message : Client → Value → Result Client
  handle_message c message = elim (type_of message) [
    | err e ↦ err e
    | ok t ↦ handle_reply t c message
  ]

  -- `disconnect`: the consumer ends, and its exception is raised here.
  unfoldable pub disconnect_client : Client → Gateway → Ending
  disconnect_client c g = elim c.failure [ none ↦ returned g | some e ↦ failed e g ]

  unfoldable pub send_json : ℕ → Value → Gateway → Ending
  send_json websocket message g =
      let g' = record g { send_attempts = g.send_attempts + 1 } in
      elim (r.send_error g.send_attempts) [
        | some e ↦ failed e g'
        | none ↦ returned (record g' { frames = (websocket, message) ∷ g'.frames })
      ]

  -- `self._exchange.publish(…, self._command_queue)`
  unfoldable pub enqueue_command : String → Client → Value → Gateway → Ending
  enqueue_command id c message g =
      let g' = record g { publish_attempts = g.publish_attempts + 1 } in
      if c.has_exchange
      then elim (r.publish_error g.publish_attempts) [
        | some e ↦ failed e g'
        | none ↦ returned (record g' { commands = (id, message) ∷ g'.commands })
      ]
      else failed attribute_error g

  -- An answer goes out at once, and a command to the queue; the log line reads the id.
  unfoldable pub send_by_type : MessageType → String → Client → Value → Gateway → Ending
  send_by_type call_result id c message g =
      after (second message) g (λ u. send_json c.websocket message g)
  send_by_type call id c message g =
      and_then (enqueue_command id c message g) (λ g'. after (second message) g' (λ u. returned g'))

  unfoldable pub send_message : String → Client → Value → Gateway → Ending
  send_message id c message g = after (type_of message) g (λ t. send_by_type t id c message g)
