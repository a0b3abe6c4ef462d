-- ===== src/Gateway/Server.antt =====
-- The handlers of ws/src/levity_ws/server.py, one at a time, and the delivery of
-- ws/src/levity_ws/rpc.py.
use levity.Prelude.{ℕ, ◌+◌, String, Option, none, some, List, [], ◌∷◌}
use levity.Dict.{first, subscript}
use levity.Gateway.Client.{second, new_client, handle_message, disconnect_client, send_message}
use levity.Gateway.State.{
  Client, Envelope, Gateway, Runtime, Ending, returned, failed, state_of, after, and_then,
  find_client, remove_client, put_client,
}
use levity.Types.Action.{connect, disconnect, receive, websocket_event_type_value}
use levity.Types.Error.{Result, ok, err, attribute_error, key_error}
use levity.Value.{Value, str, obj, Fields, field, end}

abbrev pub both : {A B : Type 0} → Result A → Result B → Result (Unit {0})
both (ok a) (ok b) = ok tt
both (ok a) (err e) = err e
both (err e) b = err e

-- `log_params`, which reads the first two entries of a frame.
unfoldable pub log_params : Option Value → Result (Unit {0})
log_params none = ok tt
log_params (some message) = both (first message) (second message)

-- The entry that only a frame has.
abbrev with_message : Option Value → Fields → Fields
with_message none rest = rest
with_message (some m) rest = field "message" m rest

-- What `_rpc_send` publishes: the dict of its caller, with the name of this server's queue.
unfoldable pub rpc_body : String → Envelope → Value
unfolding websocket_event_type_value
rpc_body queue e = obj (
    field "type" (str (websocket_event_type_value e.type))
      (field "id" (str e.id) (with_message e.message (field "queue" (str queue) end))))

module _ ⦃r : Runtime⦄ where
  unfoldable pub publish_rpc : Envelope → Gateway → Ending
  publish_rpc msg g =
      let g' = record g { publish_attempts = g.publish_attempts + 1 } in
      elim (r.publish_error g.publish_attempts) [
        | some e ↦ failed e g'
        | none ↦ returned (record g' { rpc = msg ∷ g'.rpc })
      ]

  -- `_rpc_send`
  unfoldable pub rpc_send : Envelope → Gateway → Ending
  rpc_send msg g = after (log_params msg.message) g (λ u. publish_rpc msg g)

  -- The client of a new socket, and the news of it.
  unfoldable pub add_client : String → ℕ → Gateway → Ending
  add_client id websocket g =
      rpc_send (record { type = connect; id = id; message = none })
        (put_client id (new_client websocket) g)

  -- `if charge_point_id not in ctx.clients: …`
  unfoldable pub ensure_client : String → ℕ → Gateway → Ending
  ensure_client id websocket g = elim (find_client id g.clients) [
    | none ↦ add_client id websocket g
    | some c ↦ returned g
  ]

  -- The client takes the frame, and then it is passed on.
  unfoldable pub forward : String → Value → Gateway → Ending
  forward id message g = elim (find_client id g.clients) [
    | none ↦ failed key_error g
    | some c ↦ after (handle_message c message) g (λ c'.
        rpc_send (record { type = receive; id = id; message = some message }) (put_client id c' g))
  ]

  unfoldable pub on_receive : String → ℕ → Value → Gateway → Ending
  on_receive id websocket message g = and_then (ensure_client id websocket g) (forward id message)

  unfoldable pub on_connect : String → ℕ → Gateway → Ending
  on_connect id websocket g = elim (find_client id g.clients) [
    | none ↦ add_client id websocket g
    | some c ↦ and_then (disconnect_client c g) (add_client id websocket)
  ]

  unfoldable pub on_disconnect : String → Gateway → Ending
  on_disconnect id g =
      let popped = record g { clients = remove_client id g.clients } in
      elim (find_client id g.clients) [
        | none ↦ failed attribute_error popped
        | some c ↦
            and_then (disconnect_client c popped)
              (rpc_send (record { type = disconnect; id = id; message = none }))
      ]

  -- A charge point that has no client here is skipped, and so is an id that is no text.
  unfoldable pub deliver_to : Value → Value → Gateway → Ending
  deliver_to (str id) message g = elim (find_client id g.clients) [
    | none ↦ returned g
    | some c ↦ send_message id c message g
  ]
  deliver_to v message g = after (r.hash_key v) g (λ k. returned g)

  -- The body of the loop in rpc.py, on what `json.loads` gives.
  unfoldable pub rpc_receive : Value → Gateway → Ending
  rpc_receive decoded g =
      after (subscript decoded "id") g
        (λ id. after (subscript decoded "message") g (λ message. deliver_to id message g))

-- What happens at the server. `consumes` is whatever the consumer of a client does to it.
pub data Happening : Type 0 where
  connects : String → ℕ → Happening
  receives : String → ℕ → Value → Happening
  disconnects : String → Happening
  delivers : Value → Happening
  consumes : String → (Client → Client) → Happening

module _ ⦃r : Runtime⦄ where
  unfoldable pub handle : Happening → Gateway → Ending
  handle (connects id websocket) g = on_connect id websocket g
  handle (receives id websocket message) g = on_receive id websocket message g
  handle (disconnects id) g = on_disconnect id g
  handle (delivers decoded) g = rpc_receive decoded g
  handle (consumes id f) g = elim (find_client id g.clients) [
    | none ↦ returned g
    | some c ↦ returned (put_client id (f c) g)
  ]

  -- One after another; what a handler raises ends that handler only.
  unfoldable pub serve : List Happening → Gateway → Gateway
  serve [] g = g
  serve (h ∷ hs) g = serve hs (state_of (handle h g))
