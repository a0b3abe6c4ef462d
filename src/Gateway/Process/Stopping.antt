-- ===== src/Gateway/Process/Stopping.antt =====
-- The loop of ws/src/levity_ws/rpc.py after the signal of ws/src/levity_ws/main.py.
use levity.Prelude.{
  ℕ, suc, ◌+◌, ◌*◌, ◌≤◌, ◌≡◌, refl, ◌∙◌, Bool, true, List, [], ◌∷◌, ◌⊎◌, inl, inr, length, arith,
}
use levity.Gateway.Commands.{Woken, message, cancelled, messages, cancellations}
use levity.Gateway.Process.{
  LoopPoint, starting, between, sleeping, awake, holding, over, broken, Process, finish_delivery,
  take_delivery, Loops, starts, stops, sleeps, wakes, yields, cancels, checks, takes,
  fails_to_start, fails, loops, moves, publishes, handles_exit, served, serve_raises, loop_raises,
  ends, Steps, starts_up, refused, runs, Reaches, already, then_steps, launched,
}
use levity.Gateway.Server.{rpc_receive}
use levity.Gateway.State.{Gateway, Runtime, Ending, returned, failed}
use levity.Types.Error.{Error, Result, ok, err}
use levity.Value.{Value}

abbrev weight : List Woken → ℕ
weight [] = 0
weight (message b ∷ ds) = 2 + weight ds
weight (cancelled ∷ ds) = 1 + weight ds

-- How many steps are left at most, once the signal has come.
abbrev pub left : LoopPoint → ℕ
left starting = 2
left between = 1
left sleeping = 6
left (awake ds) = 2 + weight ds
left (holding b ds) = 3 + weight ds
left over = 0
left (broken e) = 0

-- The lists that can stand there.
abbrev pub IsShort : LoopPoint → Type 0
IsShort (awake ds) = weight ds ≤ 3
IsShort (holding b ds) = weight ds ≤ 1
IsShort at = Unit

weight-eq : (ds : List Woken) → weight ds ≡ 2 * length (messages ds) + cancellations ds
weight-eq [] = omega arith
weight-eq (message b ∷ ds) = omega (arith, weight-eq ds)
weight-eq (cancelled ∷ ds) = omega (arith, weight-eq ds)

left-IsShort : (l : LoopPoint) → IsShort l → left l ≤ 6
left-IsShort starting short = omega arith
left-IsShort between short = omega arith
left-IsShort sleeping short = omega arith
left-IsShort (awake ds) short = omega (arith, short)
left-IsShort (holding b ds) short = omega (arith, short)
left-IsShort over short = omega arith
left-IsShort (broken e) short = omega arith

-- What a step of the loop keeps and uses up, by the event and the loop before it and after.
abbrev Uses : Bool → Bool → LoopPoint → LoopPoint → Type 0
Uses s t l m = (t ≡ s) × (IsShort l → IsShort m) × (s ≡ true → suc (left m) ≤ left l)

uses :
    (s : Bool) {l : LoopPoint} (a b : LoopPoint)
    → l ≡ a
    → (IsShort a → IsShort b)
    → (s ≡ true → suc (left b) ≤ left a)
    → Uses s s l b
uses s a b at short fewer = rw at (refl, short, fewer)

module _ ⦃r : Runtime⦄ where
  finished-Uses :
      (b : Result Value) (ds : List Woken) (p : Process) (o : Ending)
      → p.loop ≡ holding b ds
      → Uses p.shutdown (finish_delivery ds p o).shutdown p.loop (finish_delivery ds p o).loop
  unfolding finish_delivery
  finished-Uses b ds p (returned g) at =
      uses p.shutdown (holding b ds) (awake ds) at (λ short. omega (arith, short))
        (λ on. omega arith)
  finished-Uses b ds p (failed e g) at =
      uses p.shutdown (holding b ds) (broken e) at (λ short. tt) (λ on. omega arith)

  taken-Uses :
      (b : Result Value) (ds : List Woken) (p : Process)
      → p.loop ≡ holding b ds
      → Uses p.shutdown (take_delivery b ds p).shutdown p.loop (take_delivery b ds p).loop
  unfolding take_delivery
  taken-Uses (err e) ds p at =
      uses p.shutdown (holding (err e) ds) (broken e) at (λ short. tt) (λ on. omega arith)
  taken-Uses (ok d) ds p at = finished-Uses (ok d) ds p (rpc_receive d p.tasks.hub) at

  Loops-Uses : {p q : Process} → Loops p q → Uses p.shutdown q.shutdown p.loop q.loop
  Loops-Uses {p = p} (starts at) =
      uses p.shutdown starting between at (λ short. tt) (λ on. omega arith)
  Loops-Uses {p = p} (stops at signal) =
      uses p.shutdown between over at (λ short. tt) (λ on. omega arith)
  Loops-Uses {p = p} (sleeps at quiet) =
      uses p.shutdown between sleeping at (λ short. tt) (λ on. ground (arith, on, quiet))
  Loops-Uses {p = p} (wakes done rest at d) =
      let few : weight done ≤ 3 = omega (arith, weight-eq done, d.one_message, d.at_most_events) in
      uses p.shutdown sleeping (awake done) at (λ short. few) (λ on. omega (arith, few))
  Loops-Uses {p = p} (yields b ds at) =
      uses p.shutdown (awake (message b ∷ ds)) (holding b ds) at (λ short. omega (arith, short))
        (λ on. omega arith)
  Loops-Uses {p = p} (cancels ds at) =
      uses p.shutdown (awake (cancelled ∷ ds)) (awake ds) at (λ short. omega (arith, short))
        (λ on. omega arith)
  Loops-Uses {p = p} (checks at) =
      uses p.shutdown (awake []) between at (λ short. tt) (λ on. omega arith)
  Loops-Uses {p = p} (takes b ds at) = taken-Uses b ds p at
  Loops-Uses {p = p} (fails_to_start e at) =
      uses p.shutdown starting (broken e) at (λ short. tt) (λ on. omega arith)
  Loops-Uses {p = p} (fails e at) =
      uses p.shutdown sleeping (broken e) at (λ short. tt) (λ on. omega arith)

  -- The steps of the loop in a run.
  unfoldable pub own_steps : {p q : Process} → Steps p q → ℕ
  own_steps (starts_up n) = 0
  own_steps (refused e n) = 0
  own_steps (runs at (loops x)) = 1
  own_steps (runs at x) = 0

  unfoldable pub loop_steps : {p q : Process} → Reaches p q → ℕ
  loop_steps already = 0
  loop_steps (then_steps before s) = loop_steps before + own_steps s

  -- What any step keeps and uses up, with the steps of the loop in it.
  abbrev Spends : ℕ → Process → Process → Type 0
  Spends n p q =
      (IsShort p.loop → IsShort q.loop)
      × (p.shutdown ≡ true → (q.shutdown ≡ true) × (n + left q.loop ≤ left p.loop))

  idle-Spends :
      (p q : Process) → q.loop ≡ p.loop → (p.shutdown ≡ true → q.shutdown ≡ true) → Spends 0 p q
  idle-Spends p q same still = rw same ((λ short. short), λ on. (still on, omega arith))

  Steps-Spends : {p q : Process} (s : Steps p q) → Spends (own_steps s) p q
  unfolding own_steps
  Steps-Spends {p = p} {q = q} (starts_up n) = idle-Spends p q refl (λ on. on)
  Steps-Spends {p = p} {q = q} (refused e n) = idle-Spends p q refl (λ on. on)
  Steps-Spends {p = p} {q = q} (runs at (loops x)) =
      let (same, short, fewer) = Loops-Uses x in (short, λ on. (same ∙ on, omega (arith, fewer on)))
  Steps-Spends {p = p} {q = q} (runs at (moves m)) = idle-Spends p q refl (λ on. on)
  Steps-Spends {p = p} {q = q} (runs at (publishes b)) = idle-Spends p q refl (λ on. on)
  Steps-Spends {p = p} {q = q} (runs at handles_exit) = idle-Spends p q refl (λ on. refl)
  Steps-Spends {p = p} {q = q} (runs at served) = idle-Spends p q refl (λ on. on)
  Steps-Spends {p = p} {q = q} (runs at (serve_raises e o)) = idle-Spends p q refl (λ on. on)
  Steps-Spends {p = p} {q = q} (runs at (loop_raises e o)) = idle-Spends p q refl (λ on. on)
  Steps-Spends {p = p} {q = q} (runs at (ends o off)) = idle-Spends p q refl (λ on. on)

  Reaches-Spends : {p q : Process} (later : Reaches p q) → Spends (loop_steps later) p q
  unfolding loop_steps
  Reaches-Spends already = ((λ short. short), λ on. (on, omega arith))
  Reaches-Spends (then_steps before s) =
      let (short, spent) = Reaches-Spends before in
      let (short', spent') = Steps-Spends s in
      (
        (λ start. short' (short start)),
        λ on.
            let (on', few) = spent on in
            let (on_still, fewer) = spent' on' in (on_still, omega (arith, few, fewer)),
      )

-- The loop is over, with an exception or without.
pub data IsOver : LoopPoint → Type 0 where
  returned_none : IsOver over
  has_raised : (e : Error) → IsOver (broken e)

module _ ⦃r : Runtime⦄ where
  goes_on :
      (p : Process) (l : LoopPoint)
      → p.loop ≡ l
      → p.shutdown ≡ true
      → IsOver l ⊎ ((q : Process) × Loops p q)
  goes_on p starting at on = inr (_, starts at)
  goes_on p between at on = inr (_, stops at on)
  goes_on p sleeping at on = inr (
    _,
    wakes (cancelled ∷ []) p.queue at (record {
      some_done = λ q. cc;
      one_message = omega arith;
      at_most_events = omega arith;
      events_set = λ lt. on;
      next_message = refl;
    }),
  )
  goes_on p (awake []) at on = inr (_, checks at)
  goes_on p (awake (message b ∷ ds)) at on = inr (_, yields b ds at)
  goes_on p (awake (cancelled ∷ ds)) at on = inr (_, cancels ds at)
  goes_on p (holding b ds) at on = inr (_, takes b ds at)
  goes_on p over at on = inl returned_none
  goes_on p (broken e) at on = inl (has_raised e)

-- From the launch of the process, whatever else happens in it: once the signal has come, the loop over
-- the rpc queue takes at most six more steps, and as long as it is not over it can take one.
pub signalled-IsOver :
    ⦃r : Runtime⦄ (g : Gateway) (p q : Process)
    → Reaches (launched g) p
    → p.shutdown ≡ true
    → (later : Reaches p q) → (loop_steps later ≤ 6) × (IsOver q.loop ⊎ ((s : Process) × Loops q s))
unfolding launched
signalled-IsOver g p q before on later =
    let (short, spent) = Reaches-Spends before in
    let few = left-IsShort p.loop (short tt) in
    let (short', spent') = Reaches-Spends later in
    let (on_still, fewer) = spent' on in (omega (arith, few, fewer), goes_on q q.loop refl on_still)
