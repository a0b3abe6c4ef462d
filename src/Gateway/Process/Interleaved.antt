-- ===== src/Gateway/Process/Interleaved.antt =====
-- The process of ws/src/levity_ws/main.py, and the tasks of its sockets.
use levity.Prelude.{◌≡◌, refl, List, []}
use levity.Gateway.Commands.{Woken}
use levity.Gateway.Process.{
  Process, finish_delivery, take_delivery, Loops, starts, stops, sleeps, wakes, yields, cancels,
  checks, takes, fails_to_start, fails, Gathers, loops, moves, publishes, handles_exit, served,
  serve_raises, loop_raises, ends, Steps, starts_up, refused, runs, Reaches, already, then_steps,
  launched,
}
use levity.Gateway.Server.{rpc_receive}
use levity.Gateway.Sessions.Preceding.{Preceded, Runs-Preceded}
use levity.Gateway.Sessions.{Tasks, Runs, at_once, then_moves, then_delivers}
use levity.Gateway.State.{Gateway, Runtime, Ending, returned, failed, state_of}
use levity.Types.Error.{Result, ok, err}
use levity.Value.{Value}

module _ ⦃r : Runtime⦄ (v : Tasks) where
  finished-tasks :
      (ds : List Woken) (p : Process) (o : Ending)
      → (finish_delivery ds p o).tasks ≡ record (p.tasks) { hub = state_of o }
  unfolding finish_delivery
  finished-tasks ds p (returned g) = refl
  finished-tasks ds p (failed e g) = refl

  taken-Runs :
      (b : Result Value) (ds : List Woken) (p : Process)
      → Runs v p.tasks
      → Runs v (take_delivery b ds p).tasks
  unfolding take_delivery
  taken-Runs (err e) ds p before = before
  taken-Runs (ok decoded) ds p before =
      rw (finished-tasks ds p (rpc_receive decoded p.tasks.hub)) (then_delivers decoded before)

  Loops-Runs : {p q : Process} → Loops p q → Runs v p.tasks → Runs v q.tasks
  Loops-Runs (starts at) before = before
  Loops-Runs (stops at signal) before = before
  Loops-Runs (sleeps at quiet) before = before
  Loops-Runs (wakes done rest at d) before = before
  Loops-Runs (yields b ds at) before = before
  Loops-Runs (cancels ds at) before = before
  Loops-Runs (checks at) before = before
  Loops-Runs {p = p} (takes b ds at) before = taken-Runs b ds p before
  Loops-Runs (fails_to_start e at) before = before
  Loops-Runs (fails e at) before = before

  Gathers-Runs : {p q : Process} → Gathers p q → Runs v p.tasks → Runs v q.tasks
  Gathers-Runs (loops x) before = Loops-Runs x before
  Gathers-Runs (moves m) before = then_moves before m
  Gathers-Runs (publishes b) before = before
  Gathers-Runs handles_exit before = before
  Gathers-Runs served before = before
  Gathers-Runs (serve_raises e on) before = before
  Gathers-Runs (loop_raises e on) before = before
  Gathers-Runs (ends is_over off) before = before

  Steps-Runs : {p q : Process} → Steps p q → Runs v p.tasks → Runs v q.tasks
  Steps-Runs (starts_up n) before = before
  Steps-Runs (refused e n) before = before
  Steps-Runs (runs at x) before = Gathers-Runs x before

  Reaches-Runs : {p q : Process} → Reaches p q → Runs v p.tasks → Runs v q.tasks
  Reaches-Runs already before = before
  Reaches-Runs (then_steps so_far s) before = Steps-Runs s (Reaches-Runs so_far before)

-- From its launch, what the process does to the sockets and to what they share is an interleaving of
-- the sockets' tasks with deliveries.
pub launched-Runs :
    ⦃r : Runtime⦄ (g : Gateway) (p : Process)
    → Reaches (launched g) p
    → Runs (record { hub = g; visits = [] }) p.tasks
unfolding launched
launched-Runs g p so_far = Reaches-Runs (record { hub = g; visits = [] }) so_far at_once

-- From the launch of a process that has published nothing, whatever happens in it, with any exceptions:
-- the backend gets every frame of a charge point after a connect of that charge point.
pub launched-Preceded :
    ⦃r : Runtime⦄ (g : Gateway) (p : Process)
    → g.rpc ≡ []
    → Reaches (launched g) p
    → Preceded p.tasks.hub.rpc
launched-Preceded g p empty so_far = Runs-Preceded g p.tasks empty (launched-Runs g p so_far)
