-- ===== src/Gateway/Sessions/Late.antt =====
-- A disconnect of ws/src/levity_ws/server.py that comes late: its task waits for the client to end,
-- and meanwhile the charge point comes back on another socket.
use levity.Prelude.{
  ℕ, String, ◌≡◌, refl, ap, ◌∙◌, subst, false, none, some, List, [], ◌∷◌, eq_refl, In, here,
  if◌then◌else◌,
}
use levity.Gateway.Client.{new_client}
use levity.Gateway.Ordered.{connected, find_client-remove_client, find_client-put}
use levity.Gateway.Sessions.{
  accepting, idle, leaving, closed, Visit, After, accepted, start_client, leave, put_envelope,
  end_of, Acts, accepts, announces, hangs_up, leaves, parts, Tasks, at_head, further, new_visit,
  acts, opens, Runs, at_once, then_moves,
}
use levity.Gateway.State.{Client, Gateway, Runtime, find_client, remove_client, put_client}
use levity.Types.Action.{connect, disconnect}

module _ ⦃r : Runtime⦄ where
  accepts_new :
      (g : Gateway) (s : Visit)
      → s.stage ≡ accepting
      → find_client s.id g.clients ≡ none
      → Acts g s (start_client g s)
  unfolding accepted
  accepts_new g s at_start missing =
      let same : accepted g s ≡ start_client g s = rw (missing, accepted) refl in
      subst (λ o. Acts g s o) same (accepts at_start)

  hangs_up_known :
      (g : Gateway) (s : Visit) (c : Client)
      → s.stage ≡ idle
      → find_client s.id g.clients ≡ some c
      → Acts g s
          (record g { clients = remove_client s.id g.clients }, record s { stage = leaving c none })
  unfolding leave
  hangs_up_known g s c waits found =
      let same : leave none g s ≡ (
        record g { clients = remove_client s.id g.clients },
        record s { stage = leaving c none },
      ) =
        rw (found, leave) refl in
      subst (λ o. Acts g s o) same (hangs_up waits)

  put-found :
      (id : String) (c : Client) (g : Gateway) → find_client id (put_client id c g).clients ≡ some c
  unfolding put_client
  put-found id c g =
      find_client-put id id c g.clients
      ∙ ap (λ b. if b then some c else find_client id g.clients) (eq_refl id)

  removed-missing : (id : String) (g : Gateway) → find_client id (remove_client id g.clients) ≡ none
  removed-missing id g =
      find_client-remove_client id id g.clients
      ∙ ap (λ b. if b then none else find_client id g.clients) (eq_refl id)

  -- The task of a socket, from its opening to where it waits for a frame.
  abbrev begun : Gateway → String → ℕ → After
  begun g id socket =
      let o = start_client g (new_visit socket id) in put_envelope connect none idle o.0 o.1

  begins :
      (v : Tasks) (g : Gateway) (ss : List Visit) (id : String) (socket : ℕ)
      → find_client id g.clients ≡ none
      → Runs v (record { hub = g; visits = ss })
      → Runs v (record { hub = (begun g id socket).0; visits = (begun g id socket).1 ∷ ss })
  unfolding start_client new_visit put_envelope
  begins v g ss id socket missing before =
      then_moves
        (then_moves (then_moves before (opens socket id))
          (acts (accepts_new g (new_visit socket id) refl missing) at_head))
        (acts (announces refl) at_head)

  -- The first socket has gone and its client is being ended, and then the second is there.
  abbrev gone : Gateway → String → ℕ → Gateway
  gone g id socket =
      let hub = (begun g id socket).0 in record hub { clients = remove_client id hub.clients }

  abbrev going : Gateway → String → ℕ → Visit
  going g id socket = record (begun g id socket).1 { stage = leaving (new_client socket) none }

  abbrev back : Gateway → String → ℕ → ℕ → After
  back g id first second = begun (gone g id first) id second

  -- What the first one's disconnect leaves in the end.
  abbrev late : Gateway → String → ℕ → ℕ → After
  late g id first second =
      put_envelope disconnect none closed (back g id first second).0 (going g id first)

  goes :
      (g : Gateway) (id : String) (socket : ℕ)
      → find_client id g.clients ≡ none
      → Runs
          (record { hub = g; visits = [] })
          (record { hub = gone g id socket; visits = going g id socket ∷ [] })
  unfolding start_client new_visit put_envelope
  goes g id socket missing =
      then_moves (begins (record { hub = g; visits = [] }) g [] id socket missing at_once) (
        acts
          (hangs_up_known (begun g id socket).0 (begun g id socket).1 (new_client socket) refl
            (put-found id (new_client socket) g))
          at_head)

  comes_back :
      (g : Gateway) (id : String) (first second : ℕ)
      → find_client id g.clients ≡ none
      → Runs
          (record { hub = g; visits = [] })
          (record {
            hub = (late g id first second).0;
            visits = (back g id first second).1 ∷ (late g id first second).1 ∷ [];
          })
  unfolding start_client new_visit put_envelope end_of
  comes_back g id first second missing =
      then_moves
        (then_moves
          (begins (record { hub = g; visits = [] }) (gone g id first) (going g id first ∷ []) id
            second (removed-missing id (begun g id first).0) (goes g id first missing))
          (acts (leaves (new_client first) none refl) (further at_head)))
        (acts (parts none refl) (further at_head))

-- Let a charge point without a client connect on one socket and close it, and connect on another
-- before the client of the first has ended. Then the server can come to where the second socket
-- waits for frames with its client, while the last that the backend was told is a disconnect.
pub Runs-late :
    ⦃r : Runtime⦄ (g : Gateway) (id : String) (first second : ℕ)
    → find_client id g.clients ≡ none
    → (v : Tasks) × (s : Visit) × Runs (record { hub = g; visits = [] }) v
      × In s v.visits
      × (s.websocket ≡ second)
      × (s.stage ≡ idle)
      × (find_client id v.hub.clients ≡ some (new_client second))
      × (connected id v.hub.rpc ≡ false)
unfolding start_client new_visit put_envelope
Runs-late g id first second missing = (
  _,
  (back g id first second).1,
  comes_back g id first second missing,
  here refl,
  refl,
  refl,
  put-found id (new_client second) (gone g id first),
  rw (eq_refl id) refl,
)
