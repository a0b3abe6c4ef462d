-- ===== src/Gateway/Ordered/Leaving.antt =====
-- The client of a charge point after on_disconnect of ws/src/levity_ws/server.py.
use levity.Prelude.{
  String, ◌≡◌, refl, ap, ◌∙◌, none, eq_refl, Option-cases, inl, inr, if◌then◌else◌,
}
use levity.Gateway.Client.{disconnect_client}
use levity.Gateway.Server.{log_params, publish_rpc, rpc_send, on_disconnect}
use levity.Gateway.State.{
  Client, Envelope, Gateway, Runtime, state_of, after, and_then, find_client, remove_client,
}
use levity.Types.Action.{disconnect}
use levity.Gateway.Ordered.{find_client-remove_client}

module _ ⦃r : Runtime⦄ (id : String) where
  abbrev farewell : Envelope
  farewell = record { type = disconnect; id = id; message = none }

  farewell-clients : (g : Gateway) → (state_of (rpc_send farewell g)).clients ≡ g.clients
  unfolding rpc_send after log_params publish_rpc
  farewell-clients g = elim (Option-cases (r.publish_error g.publish_attempts)) [
    | inl fine ↦ rw (fine, state_of) refl
    | inr (e, broken) ↦ rw (broken, state_of) refl
  ]

  popped-clients :
      (c : Client) (g : Gateway)
      → (state_of (and_then (disconnect_client c g) (rpc_send farewell))).clients ≡ g.clients
  unfolding disconnect_client and_then
  popped-clients c g = elim (Option-cases c.failure) [
    | inl fine ↦ rw (fine, state_of) (farewell-clients g)
    | inr (e, broken) ↦ rw (broken, state_of) refl
  ]

  -- After the disconnect of any socket of a charge point, also of one that another has replaced, and
  -- also where it raises, the charge point has no client.
  pub on_disconnect-find_client :
      (g : Gateway) → find_client id (state_of (on_disconnect id g)).clients ≡ none
  unfolding on_disconnect
  on_disconnect-find_client g =
      let popped = record g { clients = remove_client id g.clients } in
      let gone : find_client id popped.clients ≡ none =
        find_client-remove_client id id g.clients
        ∙ ap (λ b. if b then none else find_client id g.clients) (eq_refl id) in
      elim (Option-cases (find_client id g.clients)) [
        | inl missing ↦ rw (missing, state_of) gone
        | inr (c, found) ↦
            rw (found, state_of) (ap (find_client id) (popped-clients c popped) ∙ gone)
      ]
