-- ===== src/Gateway/Process/Ends.antt =====
-- How `main_async` of ws/src/levity_ws/main.py ends.
use levity.Prelude.{◌≡◌, refl, Bool, true, List, arith}
use levity.Gateway.Commands.{Woken}
use levity.Gateway.Process.{
  MainPoint, gathering, exited, Next, connected_to, channel_opened, limited, send_declared,
  receive_declared, over, Process, finish_delivery, take_delivery, Loops, starts, stops, sleeps,
  wakes, yields, cancels, checks, takes, fails_to_start, fails, Gathers, loops, moves, publishes,
  handles_exit, served, serve_raises, loop_raises, ends, Steps, starts_up, refused, runs, Reaches,
  already, then_steps, launched,
}
use levity.Gateway.Server.{rpc_receive}
use levity.Gateway.State.{Gateway, Runtime, Ending, returned, failed}
use levity.Types.Error.{Result, ok, err}
use levity.Value.{Value}

-- The loop and the process end without an exception only after the signal.
abbrev Signalled : Process → Type 0
Signalled p = (p.loop ≡ over → p.shutdown ≡ true) × (p.phase ≡ exited → p.shutdown ≡ true)

module _ ⦃r : Runtime⦄ where
  finished-Signalled :
      (ds : List Woken) (p : Process) (o : Ending)
      → Signalled p
      → Signalled (finish_delivery ds p o)
  unfolding finish_delivery
  finished-Signalled ds p (returned g) good = (λ is_over. ground (arith, is_over), good.1)
  finished-Signalled ds p (failed e g) good = (λ is_over. ground (arith, is_over), good.1)

  taken-Signalled :
      (b : Result Value) (ds : List Woken) (p : Process)
      → Signalled p
      → Signalled (take_delivery b ds p)
  unfolding take_delivery
  taken-Signalled (err e) ds p good = (λ is_over. ground (arith, is_over), good.1)
  taken-Signalled (ok decoded) ds p good =
      finished-Signalled ds p (rpc_receive decoded p.tasks.hub) good

  Loops-Signalled : {p q : Process} → Loops p q → Signalled p → Signalled q
  unfolding take_delivery finish_delivery
  Loops-Signalled (starts at) good = (λ is_over. ground (arith, is_over), good.1)
  Loops-Signalled (stops at signal) good = (λ is_over. signal, good.1)
  Loops-Signalled (sleeps at quiet) good = (λ is_over. ground (arith, is_over), good.1)
  Loops-Signalled (wakes done rest at d) good = (λ is_over. ground (arith, is_over), good.1)
  Loops-Signalled (yields b ds at) good = (λ is_over. ground (arith, is_over), good.1)
  Loops-Signalled (cancels ds at) good = (λ is_over. ground (arith, is_over), good.1)
  Loops-Signalled (checks at) good = (λ is_over. ground (arith, is_over), good.1)
  Loops-Signalled {p = p} (takes b ds at) good = taken-Signalled b ds p good
  Loops-Signalled (fails_to_start e at) good = (λ is_over. ground (arith, is_over), good.1)
  Loops-Signalled (fails e at) good = (λ is_over. ground (arith, is_over), good.1)

  Gathers-Signalled :
      {p q : Process} → p.phase ≡ gathering → Gathers p q → Signalled p → Signalled q
  Gathers-Signalled at (loops x) good = Loops-Signalled x good
  Gathers-Signalled at (moves m) good = good
  Gathers-Signalled at (publishes b) good = good
  Gathers-Signalled at handles_exit good = (λ is_over. refl, λ is_exited. refl)
  Gathers-Signalled at served good = good
  Gathers-Signalled at (serve_raises e on) good = (good.0, λ is_exited. ground (arith, is_exited))
  Gathers-Signalled at (loop_raises e on) good = (good.0, λ is_exited. ground (arith, is_exited))
  Gathers-Signalled at (ends is_over off) good = (good.0, λ is_exited. good.0 is_over)

  Next-Signalled : {a b : MainPoint} (t : Bool) → Next a b → b ≡ exited → t ≡ true
  Next-Signalled t connected_to is_exited = ground (arith, is_exited)
  Next-Signalled t channel_opened is_exited = ground (arith, is_exited)
  Next-Signalled t limited is_exited = ground (arith, is_exited)
  Next-Signalled t send_declared is_exited = ground (arith, is_exited)
  Next-Signalled t receive_declared is_exited = ground (arith, is_exited)

  Steps-Signalled : {p q : Process} → Steps p q → Signalled p → Signalled q
  Steps-Signalled {p = p} (starts_up n) good = (good.0, Next-Signalled p.shutdown n)
  Steps-Signalled (refused e n) good = (good.0, λ is_exited. ground (arith, is_exited))
  Steps-Signalled (runs at x) good = Gathers-Signalled at x good

  Reaches-Signalled : {p q : Process} → Reaches p q → Signalled p → Signalled q
  Reaches-Signalled already good = good
  Reaches-Signalled (then_steps before s) good = Steps-Signalled s (Reaches-Signalled before good)

-- From its launch, whatever happens: main_async returns only after the signal that handle_exit takes.
pub launched-Signalled :
    ⦃r : Runtime⦄ (g : Gateway) (p : Process)
    → Reaches (launched g) p
    → p.phase ≡ exited
    → p.shutdown ≡ true
unfolding launched
launched-Signalled g p before =
    (Reaches-Signalled before
      (λ is_over. ground (arith, is_over), λ is_exited. ground (arith, is_exited))).1
