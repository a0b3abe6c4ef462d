-- ===== src/Gateway/Ordered/Steps.antt =====
-- The handlers of ws/src/levity_ws/server.py, ws/src/levity_ws/cp.py and ws/src/levity_ws/rpc.py, and
-- the order of what is passed on.
use levity.Prelude.{
  ℕ, ◌+◌, String, ◌≡◌, refl, true, none, some, List, [], ◌∷◌, eq_refl, Option-cases, inl, inr,
  arith,
}
use levity.Gateway.Client.{handle_message, disconnect_client, new_client}
use levity.Gateway.Server.{
  log_params, publish_rpc, rpc_send, add_client, ensure_client, forward, on_receive, on_connect,
  on_disconnect, Happening, connects, receives, disconnects, delivers, consumes, handle, serve,
}
use levity.Gateway.State.{
  Client, Envelope, Gateway, Runtime, returned, failed, state_of, after, and_then, find_client,
  remove_client, put_client,
}
use levity.Types.Action.{connect, disconnect, receive}
use levity.Types.Error.{Error, Result, ok, err}
use levity.Value.{Value}
use levity.Gateway.Ordered.Sending.{and_then-Keeps, rpc_receive-Keeps}
use levity.Gateway.Ordered.{connected, Ordered, Known, InStep, Known-put, Known-remove, Known-more}

module _ ⦃r : Runtime⦄ (up : (n : ℕ) → r.publish_error n ≡ none) where
  abbrev Beside : List (String × Client) → List Envelope → Type 0
  Beside cs rpc = Ordered rpc × Known cs rpc

  -- The state after an envelope that was published.
  abbrev published : Envelope → Gateway → Gateway
  published e g = record g { publish_attempts = g.publish_attempts + 1; rpc = e ∷ g.rpc }

  publish_rpc_done : (e : Envelope) (g : Gateway) → publish_rpc e g ≡ returned (published e g)
  unfolding publish_rpc
  publish_rpc_done e g = rw (up g.publish_attempts, publish_rpc) refl

  rpc_send_done :
      (e : Envelope) (g : Gateway)
      → log_params e.message ≡ ok tt
      → rpc_send e g ≡ returned (published e g)
  unfolding rpc_send after
  rpc_send_done e g readable = rw readable (publish_rpc_done e g)

  add_client-InStep :
      (id : String) (s : ℕ) (g : Gateway) → InStep g → InStep (state_of (add_client id s g))
  unfolding add_client put_client log_params
  add_client-InStep id s g good =
      let e : Envelope = record { type = connect; id = id; message = none } in
      let here_connected : connected id (e ∷ g.rpc) ≡ true = rw (eq_refl id) refl in
      rw (rpc_send_done e (put_client id (new_client s) g) refl) (
        (λ is_receive. ground (arith, is_receive), good.0),
        Known-put id (new_client s) g.clients (e ∷ g.rpc) (Known-more g.clients g.rpc e refl good.1)
            here_connected,
      )

  ensure_client-InStep :
      (id : String) (s : ℕ) (g : Gateway) → InStep g → InStep (state_of (ensure_client id s g))
  unfolding ensure_client
  ensure_client-InStep id s g good = elim (Option-cases (find_client id g.clients)) [
    | inl missing ↦ rw (missing, ensure_client, state_of) (add_client-InStep id s g good)
    | inr (c, found) ↦ rw (found, ensure_client, state_of) good
  ]

  rpc_send_refused :
      (e : Envelope) (g : Gateway) (x : Error)
      → log_params e.message ≡ err x
      → rpc_send e g ≡ failed x g
  unfolding rpc_send after
  rpc_send_refused e g x unreadable = rw unreadable refl

  received-InStep :
      (id : String) (m : Value) (g : Gateway)
      → InStep g
      → connected id g.rpc ≡ true
      → (o : Result (Unit {0})) → log_params (some m) ≡ o
      → InStep (state_of (rpc_send (record { type = receive; id = id; message = some m }) g))
  received-InStep id m g good is_connected (ok u) readable =
      let e : Envelope = record { type = receive; id = id; message = some m } in
      rw (rpc_send_done e g readable)
        ((λ is_receive. is_connected, good.0), Known-more g.clients g.rpc e refl good.1)
  received-InStep id m g good is_connected (err x) readable =
      rw (rpc_send_refused (record { type = receive; id = id; message = some m }) g x readable) good

  taken-InStep :
      (id : String) (m : Value) (c : Client) (g : Gateway)
      → InStep g
      → find_client id g.clients ≡ some c
      → (o : Result Client)
      → InStep (
          state_of (
            after o g (λ c'.
              rpc_send
                (record { type = receive; id = id; message = some m })
                (put_client id c' g))))
  unfolding after put_client
  taken-InStep id m c g good found (err x) = good
  taken-InStep id m c g good found (ok c') =
      let is_connected = good.1 id c found in
      received-InStep id m (put_client id c' g)
        (good.0, Known-put id c' g.clients g.rpc good.1 is_connected) is_connected _ refl

  forward-InStep :
      (id : String) (m : Value) (g : Gateway) → InStep g → InStep (state_of (forward id m g))
  unfolding forward find_client
  forward-InStep id m g good = elim (Option-cases (find_client id g.clients)) [
    | inl missing ↦ rw (missing, forward, state_of) good
    | inr (c, found) ↦
        rw (found, forward, state_of) (taken-InStep id m c g good found (handle_message c m))
  ]

  on_receive-InStep :
      (id : String) (s : ℕ) (m : Value) (g : Gateway)
      → InStep g
      → InStep (state_of (on_receive id s m g))
  unfolding on_receive
  on_receive-InStep id s m g good =
      and_then-Keeps Beside (ensure_client id s g) (forward id m) (ensure_client-InStep id s g good)
        (forward-InStep id m)

  disconnect_client-InStep :
      (c : Client) (g : Gateway) → InStep g → InStep (state_of (disconnect_client c g))
  unfolding disconnect_client
  disconnect_client-InStep c g good = elim (Option-cases c.failure) [
    | inl fine ↦ rw (fine, disconnect_client, state_of) good
    | inr (e, broken) ↦ rw (broken, disconnect_client, state_of) good
  ]

  on_connect-InStep :
      (id : String) (s : ℕ) (g : Gateway) → InStep g → InStep (state_of (on_connect id s g))
  unfolding on_connect find_client
  on_connect-InStep id s g good = elim (Option-cases (find_client id g.clients)) [
    | inl missing ↦ rw (missing, on_connect, state_of) (add_client-InStep id s g good)
    | inr (c, found) ↦
        rw (found, on_connect, state_of)
          (and_then-Keeps Beside (disconnect_client c g) (add_client id s)
            (disconnect_client-InStep c g good) (add_client-InStep id s))
  ]

  popped-InStep :
      (id : String) (c : Client) (g : Gateway)
      → InStep (record g { clients = remove_client id g.clients })
      → Known
          (remove_client id g.clients)
          (record { type = disconnect; id = id; message = none } ∷ g.rpc)
      → InStep (
          state_of (
            and_then
              (disconnect_client c (record g { clients = remove_client id g.clients }))
              (rpc_send (record { type = disconnect; id = id; message = none }))))
  unfolding disconnect_client and_then log_params
  popped-InStep id c g good after_it = elim (Option-cases c.failure) [
    | inl fine ↦ rw fine (
        rw
          (rpc_send_done (record { type = disconnect; id = id; message = none })
            (record g { clients = remove_client id g.clients }) refl)
          ((λ is_receive. ground (arith, is_receive), good.0), after_it))
    | inr (e, broken) ↦ rw broken good
  ]

  on_disconnect-InStep :
      (id : String) (g : Gateway) → InStep g → InStep (state_of (on_disconnect id g))
  unfolding on_disconnect find_client
  on_disconnect-InStep id g good =
      let e : Envelope = record { type = disconnect; id = id; message = none } in
      let (after_it, before_it) = Known-remove id g.clients g.rpc e refl good.1 in
      elim (Option-cases (find_client id g.clients)) [
        | inl missing ↦ rw (missing, on_disconnect, state_of) (good.0, before_it)
        | inr (c, found) ↦
            rw (found, on_disconnect, state_of) (popped-InStep id c g (good.0, before_it) after_it)
      ]

  handle-InStep : (h : Happening) (g : Gateway) → InStep g → InStep (state_of (handle h g))
  unfolding handle find_client put_client
  handle-InStep (connects id s) g good = on_connect-InStep id s g good
  handle-InStep (receives id s m) g good = on_receive-InStep id s m g good
  handle-InStep (disconnects id) g good = on_disconnect-InStep id g good
  handle-InStep (delivers d) g good = rpc_receive-Keeps Beside d g good
  handle-InStep (consumes id f) g good = elim (Option-cases (find_client id g.clients)) [
    | inl missing ↦ rw (missing, handle, state_of) good
    | inr (c, found) ↦
        rw (found, handle, state_of)
          (good.0, Known-put id (f c) g.clients g.rpc good.1 (good.1 id c found))
  ]

-- While no publish fails, and with the handlers one at a time, whatever happens at the websocket
-- server keeps this: the backend gets a frame of a charge point only between a connect of it and its
-- next disconnect, and every charge point that has a client is connected for the backend.
pub serve-InStep :
    ⦃r : Runtime⦄ (hs : List Happening) (g : Gateway)
    → ((n : ℕ) → r.publish_error n ≡ none)
    → InStep g
    → InStep (serve hs g)
unfolding serve
serve-InStep [] g up good = good
serve-InStep (h ∷ hs) g up good =
    serve-InStep hs (state_of (handle h g)) up (handle-InStep up h g good)
