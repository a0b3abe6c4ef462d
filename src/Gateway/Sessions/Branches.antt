-- ===== src/Gateway/Sessions/Branches.antt =====
-- The branches of the handlers in ws/src/levity_ws/server.py between two awaits, for any property of
-- what they leave.
use levity.Prelude.{Option, some, ◌∷◌, Option-cases, inl, inr}
use levity.Gateway.Client.{new_client, handle_message}
use levity.Gateway.Server.{log_params}
use levity.Gateway.Sessions.{
  Visit, After, replacing, restoring, passing, leaving, crashed, accepted, start_client, leave,
  handled, got,
}
use levity.Gateway.State.{Client, Gateway, Runtime, find_client, remove_client, put_client}
use levity.Types.Error.{Error, Result, ok, err, attribute_error, key_error}
use levity.Value.{Value}

module _ (P : After → Type 0) where
  pub accepted-branches :
      (g : Gateway) (s : Visit)
      → P (start_client g s)
      → ((c : Client) → P (g, record s { stage = replacing c }))
      → P (accepted g s)
  unfolding accepted
  accepted-branches g s starts replaces = elim (Option-cases (find_client s.id g.clients)) [
    | inl missing ↦ rw (missing, accepted) starts
    | inr (c, found) ↦ rw (found, accepted) (replaces c)
  ]

  pub leave-branches :
      (o : Option Error) (g : Gateway) (s : Visit)
      → (let popped = record g { clients = remove_client s.id g.clients } in
          P (popped, record s { stage = crashed attribute_error })
          → ((c : Client) → P (popped, record s { stage = leaving c o }))
          → P (leave o g s))
  unfolding leave
  leave-branches o g s crashes leaves = elim (Option-cases (find_client s.id g.clients)) [
    | inl missing ↦ rw (missing, leave) crashes
    | inr (c, found) ↦ rw (found, leave) (leaves c)
  ]

  module _ ⦃r : Runtime⦄ where
    logged-branches :
        (m : Value) (c : Client) (g : Gateway) (s : Visit) (o : Result (Unit {0}))
        → ((e : Error) → P (leave (some e) (put_client s.id c g) s))
        → P (put_client s.id c g, record s { stage = passing m })
        → P (elim o [
          | err e ↦ leave (some e) (put_client s.id c g) s
          | ok u ↦ (put_client s.id c g, record s { stage = passing m })
        ])
    logged-branches m c g s (err e) raises passes = raises e
    logged-branches m c g s (ok u) raises passes = passes

    taken-branches :
        (m : Value) (g : Gateway) (s : Visit) (o : Result Client)
        → ((e : Error) → P (leave (some e) g s))
        → ((e : Error) (c : Client) → P (leave (some e) (put_client s.id c g) s))
        → ((c : Client) → P (put_client s.id c g, record s { stage = passing m }))
        → P (elim o [
          | err e ↦ leave (some e) g s
          | ok c' ↦ elim (log_params (some m)) [
            | err e ↦ leave (some e) (put_client s.id c' g) s
            | ok u ↦ (put_client s.id c' g, record s { stage = passing m })
          ]
        ])
    taken-branches m g s (err e) raises raises_late passes = raises e
    taken-branches m g s (ok c) raises raises_late passes =
        logged-branches m c g s (log_params (some m)) (λ e. raises_late e c) (passes c)

    pub handled-branches :
        (m : Value) (g : Gateway) (s : Visit)
        → ((e : Error) → P (leave (some e) g s))
        → ((e : Error) (c : Client) → P (leave (some e) (put_client s.id c g) s))
        → ((c : Client) → P (put_client s.id c g, record s { stage = passing m }))
        → P (handled m g s)
    unfolding handled
    handled-branches m g s raises raises_late passes =
        elim (Option-cases (find_client s.id g.clients)) [
          | inl missing ↦ rw (missing, handled) (raises key_error)
          | inr (c, found) ↦
              rw (found, handled)
                (taken-branches m g s (handle_message c m) raises raises_late passes)
        ]

    pub got-branches :
        (m : Value) (g : Gateway) (s : Visit)
        → P (
          put_client s.id (new_client s.websocket) g,
          record s { stage = restoring m; received = m ∷ s.received },
        )
        → P (handled m g (record s { received = m ∷ s.received }))
        → P (got m g s)
    unfolding got
    got-branches m g s restores handles = elim (Option-cases (find_client s.id g.clients)) [
      | inl missing ↦ rw (missing, got) restores
      | inr (c, found) ↦ rw (found, got) handles
    ]
