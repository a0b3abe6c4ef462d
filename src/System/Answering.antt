-- ===== src/System/Answering.antt =====
-- A StartTransaction from its socket to its socket: on_receive of ws/src/levity_ws/server.py,
-- handle_websocket_event of be/ocpp/services/websocket_event_handler.py, and the body of the loop in
-- ws/src/levity_ws/rpc.py.
use levity.Types.PublishRun.{sent_off}
use levity.Prelude.{ℕ, ◌+◌, String, ◌≡◌, refl, true, none, some, [], ◌∷◌, ◌++◌, In}
use levity.Dict.{subscript, first}
use levity.Gateway.Client.{
  handle_message, handle_reply, type_of, second, send_message, send_by_type, send_json,
}
use levity.Gateway.Server.{
  log_params, publish_rpc, rpc_send, rpc_body, ensure_client, forward, on_receive, deliver_to,
  rpc_receive,
}
use levity.Gateway.State.{
  Client, Envelope, Gateway, Runtime, returned, after, and_then, find_client, put_client,
}
use levity.OneOpen.Arrival.{start_frame, IsNew, handle_websocket_event-answers}
use levity.OneOpen.Opening.{IsStart, Readable}
use levity.OneOpen.Rows.{OneOpen, open_count}
use levity.OneOpen.Sent.{started_envelope, started_frame}
use levity.Models.Rows.{Transaction, is_open_for}
use levity.Models.World.{World, done}
use levity.Platform.{Platform, missing}
use levity.Services.Events.{handle_websocket_event}
use levity.Types.Action.{receive, parse_websocket_event_type}
use levity.Types.Error.{ok}
use levity.Types.MessageType.{parse_message_type}
use levity.Value.{Value, obj, str, Fields, lookup, is_number}

-- What the server passes on for a frame.
abbrev pub passed_on : String → Value → Envelope
passed_on id frame = record { type = receive; id = id; message = some frame }

module _ ⦃r : Runtime⦄ where
  ensure_client_known :
      (id : String) (websocket : ℕ) (c : Client) (g : Gateway)
      → find_client id g.clients ≡ some c
      → ensure_client id websocket g ≡ returned g
  unfolding ensure_client
  ensure_client_known id websocket c g known = rw (known, ensure_client) refl

  -- A frame that was passed on leaves all else as it was.
  abbrev pub passing_on : String → Value → Client → Gateway → Gateway
  passing_on id frame c g = record (put_client id c g) {
    publish_attempts = g.publish_attempts + 1;
    rpc = passed_on id frame ∷ g.rpc;
  }

  publish_rpc_taken :
      (e : Envelope) (g : Gateway)
      → r.publish_error g.publish_attempts ≡ none
      → publish_rpc e g
        ≡ returned (record g { publish_attempts = g.publish_attempts + 1; rpc = e ∷ g.rpc })
  unfolding publish_rpc
  publish_rpc_taken e g takes = rw (takes, publish_rpc) refl

  forward_call :
      (id : String) (unique_id content : Value) (c : Client) (g : Gateway)
      → find_client id g.clients ≡ some c
      → r.publish_error g.publish_attempts ≡ none
      → forward id (start_frame unique_id content) g
        ≡ returned (passing_on id (start_frame unique_id content) c g)
  unfolding forward rpc_send log_params handle_message handle_reply type_of first second
      parse_message_type is_number after put_client
  forward_call id unique_id content c g known takes =
      rw (known, forward)
        (publish_rpc_taken (passed_on id (start_frame unique_id content)) (put_client id c g) takes)

  -- The frame of a call, from a charge point that has a client, is passed on.
  on_receive_call :
      (id : String) (websocket : ℕ) (unique_id content : Value) (c : Client) (g : Gateway)
      → find_client id g.clients ≡ some c
      → r.publish_error g.publish_attempts ≡ none
      → on_receive id websocket (start_frame unique_id content) g
        ≡ returned (passing_on id (start_frame unique_id content) c g)
  unfolding on_receive and_then
  on_receive_call id websocket unique_id content c g known takes =
      rw (ensure_client_known id websocket c g known)
        (forward_call id unique_id content c g known takes)

  module _ ⦃p : Platform⦄ where
    -- The envelope of the answer leads to the frame of the answer on the socket of the charge point.
    rpc_receive_started :
        (id : String) (unique_id : Value) (t : Transaction) (c : Client) (g : Gateway)
        → find_client id g.clients ≡ some c
        → r.send_error g.send_attempts ≡ none
        → rpc_receive (started_envelope id unique_id t) g
          ≡ returned (record g {
            send_attempts = g.send_attempts + 1;
            frames = (c.websocket, started_frame unique_id t) ∷ g.frames;
          })
    unfolding rpc_receive deliver_to send_message send_by_type send_json subscript lookup type_of
        first second parse_message_type is_number after
    rpc_receive_started id unique_id t c g known takes =
        rw (known, deliver_to, takes, send_json) refl

    -- With the default middleware, from a backend in which each charge point has at most one open
    -- transaction and every stored reading, and zero, fits a meter stop, while both brokers take what
    -- they are given and objects can be stored: when a charge point that has a client sends the frame
    -- of a StartTransaction that fits its columns and whose id can be stored and is new, the server
    -- passes it on; the backend handles what was passed on, and what it sends is one envelope, to the
    -- queue of this server; and when the server takes that envelope, in whatever state the charge point
    -- has a client in and its socket takes a frame, the answer goes to the socket of that client: the
    -- result with the id of the frame, which names the one open transaction of the charge point.
    pub on_receive-answered :
        (id queue : String) (websocket : ℕ) (unique_id content : Value) (key : String)
        (stored : Value) (c c' : Client) (g g' : Gateway) (w : World)
        → find_client id g.clients ≡ some c
        → r.publish_error g.publish_attempts ≡ none
        → find_client id g'.clients ≡ some c'
        → r.send_error g'.send_attempts ≡ none
        → p.ocpp_middleware ≡ missing
        → ((n : ℕ) → p.publish_run n ≡ sent_off)
        → ((fs : Fields) → (s : Value) × (p.json_field (obj fs) ≡ ok s))
        → p.char_field 128 (str id) ≡ ok id
        → p.char_field 256 (str queue) ≡ ok queue
        → p.char_field 128 unique_id ≡ ok key
        → p.json_field content ≡ ok stored
        → IsStart content
        → OneOpen w
        → Readable w.meter_values
        → IsNew unique_id content key stored id w.messages
        → (w' : World) × (t : Transaction) × (on_receive id websocket
              (start_frame unique_id content)
              g
            ≡ returned (passing_on id (start_frame unique_id content) c g))
          × (handle_websocket_event
                (rpc_body queue (passed_on id (start_frame unique_id content)))
                w
              ≡ done tt w')
          × (w'.sent ≡ w.sent ++ (queue, started_envelope id unique_id t) ∷ [])
          × (rpc_receive (started_envelope id unique_id t) g'
              ≡ returned (record g' {
                send_attempts = g'.send_attempts + 1;
                frames = (c'.websocket, started_frame unique_id t) ∷ g'.frames;
              }))
          × In t w'.transactions
          × (is_open_for id t ≡ true)
          × (open_count id w'.transactions ≡ 1)
    unfolding rpc_body subscript lookup parse_websocket_event_type
    on_receive-answered id queue websocket unique_id content key stored c c' g g' w known takes
          known' takes' unset up objects id_fits queue_fits keyed storable start one readable new =
        let event = rpc_body queue (passed_on id (start_frame unique_id content)) in
        let (w', handled, (t, sent, kept, is_open, self)) =
          handle_websocket_event-answers unset up objects unique_id content key stored keyed
            storable start event (str id) (str queue) (str "receive") id queue w refl refl refl refl
            refl id_fits queue_fits one readable new in
        (
          w',
          t,
          on_receive_call id websocket unique_id content c g known takes,
          handled,
          sent,
          rpc_receive_started id unique_id t c' g' known' takes',
          kept,
          is_open,
          self,
        )
