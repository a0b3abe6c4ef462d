-- ===== src/Gateway/Ordered.antt =====
-- The order of what ws/src/levity_ws/server.py passes on to the backend.
pub mod Sending
pub mod Steps
pub mod Leaving
use levity.Prelude.{
  ℕ, ◌+◌, String, ◌≡◌, refl, ap, ◌∙◌, sym, Bool, true, false, Option, none, some, List, [], ◌∷◌,
  str_eq, eq_iff, eq_refl, Bool-cases, Option-cases, inl, inr, arith, if◌then◌else◌, not,
}
use mathlib.Core.Bool.{false≢true}
use levity.Gateway.Client.{
  handle_message, disconnect_client, send_message, new_client, send_by_type, send_json,
  enqueue_command, second, type_of,
}
use levity.Gateway.Server.{
  log_params, publish_rpc, rpc_send, add_client, ensure_client, forward, on_receive, on_connect,
  on_disconnect, deliver_to, rpc_receive, Happening, connects, receives, disconnects, delivers,
  consumes, handle, serve,
}
use levity.Gateway.State.{
  Client, Envelope, Gateway, Runtime, Ending, returned, failed, state_of, after, and_then,
  find_client, remove_client, put_client,
}
use levity.Types.Action.{WebsocketEventType, connect, disconnect, receive}
use levity.Types.Error.{Error, Result, ok, err}
use levity.Types.MessageType.{MessageType, call, call_result}
use levity.Value.{Value, null, bool, num, str, arr, obj, enum_member, datetime}

abbrev pub after_event : WebsocketEventType → Bool → Bool
after_event connect b = true
after_event disconnect b = false
after_event receive b = b

-- Whether the last connect or disconnect of a charge point, the newest first, is a connect.
abbrev pub connected : String → List Envelope → Bool
connected id [] = false
connected id (e ∷ es) =
    let rest = connected id es in if str_eq e.id id then after_event e.type rest else rest

-- Each frame comes while its charge point is connected.
abbrev pub Ordered : List Envelope → Type 0
Ordered [] = Unit
Ordered (e ∷ es) = (e.type ≡ receive → connected e.id es ≡ true) × Ordered es

abbrev pub Known : List (String × Client) → List Envelope → Type 0
Known clients rpc =
    (k : String) (c : Client) → find_client k clients ≡ some c → connected k rpc ≡ true

abbrev pub InStep : Gateway → Type 0
InStep g = Ordered g.rpc × Known g.clients g.rpc

pub find_client-remove_client :
    (k id : String) (cs : List (String × Client))
    → find_client k (remove_client id cs) ≡ (if str_eq id k then none else find_client k cs)
unfolding remove_client find_client
find_client-remove_client k id [] = ground arith
find_client-remove_client k id ((n, c) ∷ rest) =
    let again = find_client-remove_client k id rest in
    ground (arith, again, eq_iff n id, eq_iff n k, eq_iff id k)

-- An entry that was put is there, and the others are as before.
pub find_client-put :
    (k id : String) (c : Client) (cs : List (String × Client))
    → find_client k ((id, c) ∷ remove_client id cs)
      ≡ (if str_eq id k then some c else find_client k cs)
unfolding find_client
find_client-put k id c cs = ground (arith, find_client-remove_client k id cs)

pub Known-put :
    (id : String) (c : Client) (cs : List (String × Client)) (rpc : List Envelope)
    → Known cs rpc
    → connected id rpc ≡ true
    → Known ((id, c) ∷ remove_client id cs) rpc
Known-put id c cs rpc known is_connected k d found = elim (Bool-cases (str_eq id k)) [
  | inl same ↦ ap (λ n. connected n rpc) (sym ((eq_iff id k).0 same)) ∙ is_connected
  | inr other ↦ known k d (
      ap (λ b. if b then some c else find_client k cs) (sym other)
      ∙ sym (find_client-put k id c cs)
      ∙ found)
]

pub Known-remove :
    (id : String) (cs : List (String × Client)) (rpc : List Envelope) (e : Envelope)
    → e.id ≡ id
    → Known cs rpc
    → Known (remove_client id cs) (e ∷ rpc) × Known (remove_client id cs) rpc
Known-remove id cs rpc e from known = (
  λ k c found. ground (arith, found, from, find_client-remove_client k id cs, known k c),
  λ k c found. ground (arith, found, find_client-remove_client k id cs, known k c),
)

pub Known-more :
    (cs : List (String × Client)) (rpc : List Envelope) (e : Envelope)
    → after_event e.type true ≡ true
    → Known cs rpc
    → Known cs (e ∷ rpc)
Known-more cs rpc e stays known k c found =
    let before = known k c found in
    elim (Bool-cases (str_eq e.id k)) [
      | inl same ↦ rw (same, before, stays) refl
      | inr other ↦ rw (other, before) refl
    ]
