-- ===== src/Gateway/Process/Broken.antt =====
-- What `main_async` of ws/src/levity_ws/main.py makes of an exception in the loop of
-- ws/src/levity_ws/rpc.py.
use levity.Prelude.{String, ◌≡◌, refl, sym, ap, ◌∙◌, subst, false, some, List, [], ◌∷◌, ◌++◌, arith}
use mathlib.Core.List.{append-nil, append_assoc}
use levity.Dict.{subscript}
use levity.Gateway.Client.{send_message, send_by_type, enqueue_command, type_of}
use levity.Gateway.Commands.{Woken}
use levity.Gateway.Process.{
  MainPoint, gathering, aborted, Next, connected_to, channel_opened, limited, send_declared,
  receive_declared, holding, broken, Process, finish_delivery, take_delivery, Loops, starts, stops,
  sleeps, wakes, yields, cancels, checks, takes, fails_to_start, fails, Gathers, loops, moves,
  publishes, handles_exit, served, serve_raises, loop_raises, ends, Steps, starts_up, refused, runs,
  Reaches, already, then_steps,
}
use levity.Gateway.Server.{deliver_to, rpc_receive}
use levity.Gateway.State.{Client, Gateway, Runtime, failed, after, and_then, find_client}
use levity.Types.Error.{Error, Result, ok, attribute_error}
use levity.Types.MessageType.{call}
use levity.Value.{Value, str}

-- gather waits, or it has raised.
abbrev pub IsLosing : MainPoint → Type 0
IsLosing gathering = Unit
IsLosing (aborted e) = Unit
IsLosing phase = ⊥

-- The loop has ended with this exception, main_async has not returned, and every message is still in
-- the queue.
abbrev pub Lost : Error → List (Result Value) → Process → Type 0
Lost e queue p =
    (p.loop ≡ broken e)
    × IsLosing p.phase
    × ((more : List (Result Value)) × (p.queue ≡ queue ++ more))

module _ ⦃r : Runtime⦄ (e : Error) where
  Loops-broken : {p q : Process} → p.loop ≡ broken e → Loops p q → ⊥
  Loops-broken at (starts a) = ground (arith, at, a)
  Loops-broken at (stops a signal) = ground (arith, at, a)
  Loops-broken at (sleeps a quiet) = ground (arith, at, a)
  Loops-broken at (wakes done rest a d) = ground (arith, at, a)
  Loops-broken at (yields b ds a) = ground (arith, at, a)
  Loops-broken at (cancels ds a) = ground (arith, at, a)
  Loops-broken at (checks a) = ground (arith, at, a)
  Loops-broken at (takes b ds a) = ground (arith, at, a)
  Loops-broken at (fails_to_start x a) = ground (arith, at, a)
  Loops-broken at (fails x a) = ground (arith, at, a)

  Gathers-Lost :
      {p q : Process} (queue : List (Result Value)) → Gathers p q → Lost e queue p → Lost e queue q
  Gathers-Lost queue (loops x) (at, losing, kept) = elim (Loops-broken at x) [ ]
  Gathers-Lost queue (moves m) lost = lost
  Gathers-Lost {p = p} queue (publishes b) (at, losing, (more, kept)) = (
    at,
    losing,
    (more ++ b ∷ [], ap (λ bs. bs ++ b ∷ []) kept ∙ append_assoc queue more (b ∷ [])),
  )
  Gathers-Lost queue handles_exit lost = lost
  Gathers-Lost queue served lost = lost
  Gathers-Lost queue (serve_raises x on) (at, losing, kept) = (at, tt, kept)
  Gathers-Lost queue (loop_raises x on) (at, losing, kept) = (at, tt, kept)
  Gathers-Lost queue (ends is_over off) (at, losing, kept) = ground (arith, at, is_over)

  Next-losing : {a b : MainPoint} → Next a b → IsLosing a → ⊥
  Next-losing connected_to losing = losing
  Next-losing channel_opened losing = losing
  Next-losing limited losing = losing
  Next-losing send_declared losing = losing
  Next-losing receive_declared losing = losing

  Steps-Lost :
      {p q : Process} (queue : List (Result Value)) → Steps p q → Lost e queue p → Lost e queue q
  Steps-Lost queue (starts_up n) lost = elim (Next-losing n lost.1) [ ]
  Steps-Lost queue (refused x n) lost = elim (Next-losing n lost.1) [ ]
  Steps-Lost queue (runs at x) lost = Gathers-Lost queue x lost

  Reaches-Lost :
      {p q : Process} (queue : List (Result Value)) → Reaches p q → Lost e queue p → Lost e queue q
  Reaches-Lost queue already lost = lost
  Reaches-Lost queue (then_steps before s) lost =
      Steps-Lost queue s (Reaches-Lost queue before lost)

module _ ⦃r : Runtime⦄ where
  -- A command for a client whose task has not declared its exchange yet.
  undeclared_refuses :
      (m : Value) (id : String) (c : Client) (g : Gateway)
      → type_of m ≡ ok call
      → find_client id g.clients ≡ some c
      → c.has_exchange ≡ false
      → deliver_to (str id) m g ≡ failed attribute_error g
  unfolding deliver_to send_message send_by_type enqueue_command after and_then
  undeclared_refuses m id c g is_call found undeclared =
      rw (found, deliver_to) (rw (is_call, send_message) (rw (undeclared, enqueue_command) refl))

  undeclared_fails :
      (decoded m : Value) (id : String) (c : Client) (g : Gateway)
      → subscript decoded "id" ≡ ok (str id)
      → subscript decoded "message" ≡ ok m
      → type_of m ≡ ok call
      → find_client id g.clients ≡ some c
      → c.has_exchange ≡ false
      → rpc_receive decoded g ≡ failed attribute_error g
  unfolding rpc_receive after
  undeclared_fails decoded m id c g has_id has_message is_call found undeclared =
      rw (has_id, has_message) (undeclared_refuses m id c g is_call found undeclared)

  taken_fails :
      (decoded : Value) (ds : List Woken) (e : Error) (p : Process)
      → rpc_receive decoded p.tasks.hub ≡ failed e p.tasks.hub
      → p.phase ≡ gathering
      → Lost e p.queue (take_delivery (ok decoded) ds p)
  unfolding take_delivery finish_delivery
  taken_fails decoded ds e p failing at =
      rw failing (refl, subst IsLosing (sym at) tt, ([], sym (append-nil p.queue)))

  holding-takes :
      {p q : Process} (b : Result Value) (ds : List Woken)
      → p.loop ≡ holding b ds
      → Loops p q
      → q ≡ take_delivery b ds p
  holding-takes b ds at (starts a) = ground (arith, at, a)
  holding-takes b ds at (stops a signal) = ground (arith, at, a)
  holding-takes b ds at (sleeps a quiet) = ground (arith, at, a)
  holding-takes b ds at (wakes done rest a d) = ground (arith, at, a)
  holding-takes b ds at (yields x xs a) = ground (arith, at, a)
  holding-takes b ds at (cancels xs a) = ground (arith, at, a)
  holding-takes b ds at (checks a) = ground (arith, at, a)
  holding-takes b ds at (takes x xs a) = ground (arith, at, a)
  holding-takes b ds at (fails_to_start x a) = ground (arith, at, a)
  holding-takes b ds at (fails x a) = ground (arith, at, a)

-- Let the loop hold a command for a charge point whose client has not declared its exchange. Its next
-- step raises AttributeError, and from then on, whatever happens: the loop takes no message of the
-- queue any more, for any charge point, and main_async does not return but raises.
pub undeclared-Lost :
    ⦃r : Runtime⦄ (decoded m : Value) (ds : List Woken) (id : String) (c : Client) (p q s : Process)
    → p.phase ≡ gathering
    → p.loop ≡ holding (ok decoded) ds
    → subscript decoded "id" ≡ ok (str id)
    → subscript decoded "message" ≡ ok m
    → type_of m ≡ ok call
    → find_client id p.tasks.hub.clients ≡ some c
    → c.has_exchange ≡ false
    → Loops p q
    → Reaches q s
    → Lost attribute_error p.queue s
undeclared-Lost decoded m ds id c p q s waits holds has_id has_message is_call found undeclared step
      later =
    let failing =
      undeclared_fails decoded m id c p.tasks.hub has_id has_message is_call found undeclared in
    Reaches-Lost attribute_error p.queue later (
      subst (Lost attribute_error p.queue) (sym (holding-takes (ok decoded) ds holds step))
        (taken_fails decoded ds attribute_error p failing waits))
