-- ===== src/Gateway/State.antt =====
-- The state of the websocket server: ws/src/levity_ws/global_context.py, the fields of
-- ChargePointClient in ws/src/levity_ws/cp.py, and what was handed to the broker and the sockets.
use levity.Prelude.{
  ℕ, String, Bool, Option, none, some, List, [], ◌∷◌, str_eq, keep, not, if◌then◌else◌,
}
use levity.Types.Action.{WebsocketEventType}
use levity.Types.Error.{Error, Result}
use levity.Value.{Value}

-- ChargePointClient: the socket, the keys of `_awaiting_replies`, whether `_exchange` is declared,
-- and the exception that `_consume_task` ended with, if it did.
pub record Client : Type 0 where
  pub websocket : ℕ
  pub awaiting_replies : List String
  pub has_exchange : Bool
  pub failure : Option Error

-- The dict that `_rpc_send` publishes; its `queue` is this server's own.
pub record Envelope : Type 0 where
  pub type : WebsocketEventType
  pub id : String
  pub message : Option Value

-- `rpc` and the others hold the newest first.
pub record Gateway : Type 0 where
  pub clients : List (String × Client)
  pub rpc : List Envelope
  pub commands : List (String × Value)
  pub frames : List (ℕ × Value)
  pub publish_attempts : ℕ
  pub send_attempts : ℕ

-- aio_pika, Starlette and the keys of Python's dicts: the exception of the n-th publish and of the
-- n-th `send_json`, and what identifies a value as a key, or the TypeError of one that has no hash.
pub record Runtime : Type 0 where
  pub publish_error : ℕ → Option Error
  pub send_error : ℕ → Option Error
  pub hash_key : Value → Result String

-- How a coroutine ends.
pub data Ending : Type 0 where
  returned : Gateway → Ending
  failed : Error → Gateway → Ending

abbrev pub state_of : Ending → Gateway
state_of (returned g) = g
state_of (failed e g) = g

-- One `await` after another.
unfoldable pub and_then : Ending → (Gateway → Ending) → Ending
and_then (returned g) k = k g
and_then (failed e g) k = failed e g

-- A call that may raise before the state changes.
unfoldable pub after {ℓ} : {A : Type ℓ} → Result A → Gateway → (A → Ending) → Ending
after (Result.ok a) g k = k a
after (Result.err e) g k = failed e g

-- `ctx.clients.get(id)`
unfoldable pub find_client : String → List (String × Client) → Option Client
find_client id [] = none
find_client id ((k, c) ∷ rest) = if str_eq k id then some c else find_client id rest

-- `ctx.clients.pop(id, None)`
unfoldable pub remove_client : String → List (String × Client) → List (String × Client)
remove_client id clients = keep (λ e. not (str_eq e.0 id)) clients

-- `ctx.clients[id] = client`
unfoldable pub put_client : String → Client → Gateway → Gateway
unfolding remove_client
put_client id c g = record g { clients = (id, c) ∷ remove_client id g.clients }
