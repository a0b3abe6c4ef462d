-- ===== src/Gateway/Sessions.antt =====
-- The tasks of ws/src/levity_ws/server.py, a step at a time between their awaits. For each socket
-- Starlette runs on_connect, then on_receive for every frame, then on_disconnect, which also runs when
-- on_receive has raised, and not when on_connect has. An await returns at any time, or raises. The
-- loop of ws/src/levity_ws/rpc.py awaits only as the last call for a delivery, and so is one step.
pub mod Branches
pub mod Merging
pub mod Telling
pub mod Preceding
pub mod Late
use levity.Prelude.{ℕ, String, Option, none, some, List, [], ◌∷◌, ◌≡◌}
use levity.Gateway.Client.{new_client, handle_message}
use levity.Gateway.Server.{log_params, rpc_receive}
use levity.Gateway.State.{
  Client, Envelope, Gateway, Runtime, state_of, find_client, remove_client, put_client,
}
use levity.Types.Action.{WebsocketEventType, connect, disconnect, receive}
use levity.Types.Error.{Error, ok, err, key_error, attribute_error}
use levity.Value.{Value}

-- Where the task of a socket awaits.
pub data Stage : Type 0 where
  -- on_connect: `websocket.accept`, the `disconnect` of the client before, and the publish
  accepting : Stage
  replacing : Client → Stage
  announcing : Stage
  -- the next frame
  idle : Stage
  -- on_receive: the publish of a connect, its end, and the publish of the frame
  restoring restored passing : Value → Stage
  -- on_disconnect, after an exception or without: the `disconnect` of its client, and the publish
  leaving : Client → Option Error → Stage
  parting : Option Error → Stage
  closed : Stage
  crashed : Error → Stage

-- The awaits of on_connect and on_disconnect.
pub data IsOutside : Stage → Type 0 where
  in_accepting : IsOutside accepting
  in_replacing : (c : Client) → IsOutside (replacing c)
  in_announcing : IsOutside announcing
  in_leaving : (c : Client) (o : Option Error) → IsOutside (leaving c o)
  in_parting : (o : Option Error) → IsOutside (parting o)

-- The await of the next frame, which may be no JSON, and those of on_receive.
pub data IsInside : Stage → Type 0 where
  in_idle : IsInside idle
  in_restoring : (m : Value) → IsInside (restoring m)
  in_passing : (m : Value) → IsInside (passing m)

-- A socket's task, the frames that it got and the envelopes that it published, the newest first.
pub record Visit : Type 0 where
  pub websocket : ℕ
  pub id : String
  pub stage : Stage
  pub received : List Value
  pub published : List Envelope

-- What the task leaves behind at its next await.
abbrev pub After : Type 0
After = Gateway × Visit

-- The rest of on_connect up to the publish.
unfoldable pub start_client : Gateway → Visit → After
start_client g s = (put_client s.id (new_client s.websocket) g, record s { stage = announcing })

-- on_connect, once the socket is accepted.
unfoldable pub accepted : Gateway → Visit → After
accepted g s = elim (find_client s.id g.clients) [
  | none ↦ start_client g s
  | some c ↦ (g, record s { stage = replacing c })
]

-- on_disconnect up to its first await; `pop` comes before it.
unfoldable pub leave : Option Error → Gateway → Visit → After
leave o g s =
    let popped = record g { clients = remove_client s.id g.clients } in
    elim (find_client s.id g.clients) [
      | none ↦ (popped, record s { stage = crashed attribute_error })
      | some c ↦ (popped, record s { stage = leaving c o })
    ]

-- An envelope that the broker takes.
unfoldable pub put_envelope : WebsocketEventType → Option Value → Stage → Gateway → Visit → After
put_envelope type message stage g s =
    let e : Envelope = record { type = type; id = s.id; message = message } in
    (record g { rpc = e ∷ g.rpc }, record s { stage = stage; published = e ∷ s.published })

-- How on_disconnect ends, and with it the task.
unfoldable pub end_of : Option Error → Stage
end_of none = closed
end_of (some e) = crashed e

module _ ⦃r : Runtime⦄ where
  -- on_receive from the client's look-up to the publish.
  unfoldable pub handled : Value → Gateway → Visit → After
  handled m g s = elim (find_client s.id g.clients) [
    | none ↦ leave (some key_error) g s
    | some c ↦ elim (handle_message c m) [
      | err e ↦ leave (some e) g s
      | ok c' ↦ elim (log_params (some m)) [
        | err e ↦ leave (some e) (put_client s.id c' g) s
        | ok u ↦ (put_client s.id c' g, record s { stage = passing m })
      ]
    ]
  ]

  -- on_receive from its start.
  unfoldable pub got : Value → Gateway → Visit → After
  got m g s =
      let s' = record s { received = m ∷ s.received } in
      elim (find_client s.id g.clients) [
        | none ↦ (put_client s.id (new_client s.websocket) g, record s' { stage = restoring m })
        | some c ↦ handled m g s'
      ]

  -- From one await of a task to the next.
  pub data Acts (g : Gateway) (s : Visit) : After → Type 0 where
    accepts : s.stage ≡ accepting → Acts g s (accepted g s)
    replaces : (c : Client) → s.stage ≡ replacing c → Acts g s (start_client g s)
    announces : s.stage ≡ announcing → Acts g s (put_envelope connect none idle g s)
    gets : (m : Value) → s.stage ≡ idle → Acts g s (got m g s)
    restores :
        (m : Value) → s.stage ≡ restoring m → Acts g s (put_envelope connect none (restored m) g s)
    goes_on : (m : Value) → s.stage ≡ restored m → Acts g s (handled m g s)
    passes : (m : Value) → s.stage ≡ passing m → Acts g s (put_envelope receive (some m) idle g s)
    hangs_up : s.stage ≡ idle → Acts g s (leave none g s)
    leaves :
        (c : Client) (o : Option Error)
        → s.stage ≡ leaving c o
        → Acts g s (g, record s { stage = parting o })
    parts :
        (o : Option Error)
        → s.stage ≡ parting o
        → Acts g s (put_envelope disconnect none (end_of o) g s)
    -- an await that raises in on_connect or on_disconnect, and one in on_receive
    ends : (e : Error) → IsOutside s.stage → Acts g s (g, record s { stage = crashed e })
    breaks : (e : Error) → IsInside s.stage → Acts g s (leave (some e) g s)

-- What the tasks share, and the tasks.
pub record Tasks : Type 0 where
  pub hub : Gateway
  pub visits : List Visit

-- One entry of a list is replaced.
pub data Replaced {A : Type 0} (a b : A) : List A → List A → Type 0 where
  at_head : {xs : List A} → Replaced a b (a ∷ xs) (b ∷ xs)
  further : {x : A} {xs ys : List A} → Replaced a b xs ys → Replaced a b (x ∷ xs) (x ∷ ys)

unfoldable pub new_visit : ℕ → String → Visit
new_visit websocket id = record {
  websocket = websocket;
  id = id;
  stage = accepting;
  received = [];
  published = [];
}

module _ ⦃r : Runtime⦄ where
  pub data Moves : Tasks → Tasks → Type 0 where
    acts :
        {g : Gateway} {s : Visit} {o : After} {ss ts : List Visit}
        → Acts g s o
        → Replaced s o.1 ss ts
        → Moves (record { hub = g; visits = ss }) (record { hub = o.0; visits = ts })
    opens :
        (websocket : ℕ) (id : String) {g : Gateway} {ss : List Visit}
        → Moves
            (record { hub = g; visits = ss })
            (record { hub = g; visits = new_visit websocket id ∷ ss })
    -- what the consumer of a client does to it, to its socket and to its queue
    consumes :
        (id : String) (c c' : Client) (frames : List (ℕ × Value)) (commands : List (String × Value))
        {g : Gateway} {ss : List Visit}
        → find_client id g.clients ≡ some c
        → c'.websocket ≡ c.websocket
        → Moves
            (record { hub = g; visits = ss })
            (record {
              hub = record (put_client id c' g) { frames = frames; commands = commands };
              visits = ss;
            })

  -- Any interleaving, with the deliveries, each up to its end or to what it raises.
  pub data Runs (v : Tasks) : Tasks → Type 0 where
    at_once : Runs v v
    then_moves : {u w : Tasks} → Runs v u → Moves u w → Runs v w
    then_delivers :
        (decoded : Value) {g : Gateway} {ss : List Visit}
        → Runs v (record { hub = g; visits = ss })
        → Runs v (record { hub = state_of (rpc_receive decoded g); visits = ss })
