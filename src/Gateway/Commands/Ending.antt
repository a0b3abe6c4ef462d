-- ===== src/Gateway/Commands/Ending.antt =====
-- How the task of ws/src/levity_ws/cp.py ends, which `ChargePointClient.disconnect` waits for.
use levity.Prelude.{ℕ, ◌+◌, ◌≤◌, ◌≡◌, refl, sym, subst, ap, true, [], ◌∷◌, ◌⊎◌, inl, inr, arith}
use levity.Gateway.Commands.{
  message, cancelled, Place, declaring, declaring_exchange, binding, outer, iterating, asleep,
  woken, taken, sending, awaiting_reply, ended, crashed, Consumer, is_stopped, Own, queue_declared,
  exchange_declared, bound, leaves, stops, wakes, yields, cancels, checks, takes, sends, breaks,
  Other, shuts, disconnects, publishes, registers, replies, ignores, Interleaving, here, own, other,
}
use levity.Gateway.State.{Runtime}
use levity.Types.Error.{Error}
use levity.Gateway.Commands.Weights.{steps_left, IsSmall, Uses, Own-Uses}

module _ ⦃r : Runtime⦄ where
  Other-place : {s t : Consumer} → Other s t → t.place ≡ s.place
  Other-place (shuts s) = refl
  Other-place (disconnects s) = refl
  Other-place (publishes s b) = refl
  Other-place (registers s here_) = refl
  Other-place (replies s k awaited) = refl
  Other-place (ignores s k unknown) = refl

  Other-is_stopped : {s t : Consumer} → Other s t → is_stopped s ≡ true → is_stopped t ≡ true
  Other-is_stopped (shuts s) h = ground arith
  Other-is_stopped (disconnects s) h = ground arith
  Other-is_stopped (publishes s b) h = h
  Other-is_stopped (registers s here_) h = h
  Other-is_stopped (replies s k awaited) h = h
  Other-is_stopped (ignores s k unknown) h = h

  Own-is_stopped : {s t : Consumer} → Uses s t → is_stopped s ≡ true → is_stopped t ≡ true
  Own-is_stopped u h = ground (arith, u.same_shutdown, u.same_disconnected)

  Interleaving-steps_left :
      {n : ℕ} {s t : Consumer}
      → Interleaving n s t
      → is_stopped s ≡ true
      → (n + steps_left t.place ≤ steps_left s.place) × (is_stopped t ≡ true)
  Interleaving-steps_left (here s) h = (omega arith, h)
  Interleaving-steps_left (own p o) h =
      let (before, stopped) = Interleaving-steps_left p h in
      let u = Own-Uses o in let less = u.fewer stopped in (omega arith, Own-is_stopped u stopped)
  Interleaving-steps_left (other p o) h =
      let (before, stopped) = Interleaving-steps_left p h in
      let same = ap steps_left (Other-place o) in (omega arith, Other-is_stopped o stopped)

  Interleaving-IsSmall :
      {n : ℕ} {s t : Consumer} → Interleaving n s t → IsSmall s.place → IsSmall t.place
  Interleaving-IsSmall (here s) h = h
  Interleaving-IsSmall (own p o) h = (Own-Uses o).small (Interleaving-IsSmall p h)
  Interleaving-IsSmall (other p o) h =
      subst IsSmall (sym (Other-place o)) (Interleaving-IsSmall p h)

steps_left-le : (p : Place) → IsSmall p → steps_left p ≤ 10
steps_left-le declaring h = omega arith
steps_left-le declaring_exchange h = omega arith
steps_left-le binding h = omega arith
steps_left-le outer h = omega arith
steps_left-le iterating h = omega arith
steps_left-le asleep h = omega arith
steps_left-le (woken ds) h = omega arith
steps_left-le (taken b ds) h = omega arith
steps_left-le (sending k c ds) h = omega arith
steps_left-le (awaiting_reply k ds) h = omega arith
steps_left-le ended h = omega arith
steps_left-le (crashed e) h = omega arith

-- The task is over, with an exception or without.
pub data IsOver : Place → Type 0 where
  returned : IsOver ended
  raised : (e : Error) → IsOver (crashed e)

module _ ⦃r : Runtime⦄ where
  goes_on :
      (s : Consumer) (p : Place)
      → s.place ≡ p
      → is_stopped s ≡ true
      → IsOver p ⊎ ((t : Consumer) × Own s t)
  goes_on s declaring e h = inr (_, queue_declared s e)
  goes_on s declaring_exchange e h = inr (_, exchange_declared s e)
  goes_on s binding e h = inr (_, bound s e)
  goes_on s outer e h = inr (_, leaves s e h)
  goes_on s iterating e h = inr (_, stops s e h)
  goes_on s asleep e h = inr (
    _,
    wakes s (cancelled ∷ []) s.queue e (record {
      some_done = λ q. cc;
      one_message = omega arith;
      at_most_events = omega arith;
      events_set = λ lt. h;
      next_message = refl;
    }),
  )
  goes_on s (woken []) e h = inr (_, checks s e)
  goes_on s (woken (message b ∷ ds)) e h = inr (_, yields s b ds e)
  goes_on s (woken (cancelled ∷ ds)) e h = inr (_, cancels s ds e)
  goes_on s (taken b ds) e h = inr (_, takes s b ds e)
  goes_on s (sending k c ds) e h = inr (_, sends s k c ds e)
  goes_on s (awaiting_reply k ds) e h = inr (_, breaks s k ds e h)
  goes_on s ended e h = inl returned
  goes_on s (crashed x) e h = inl (raised x)

  -- From its start, whatever the other tasks do: once one of its events is set, the task of a client
  -- takes at most ten more steps of its own, and as long as it is not over it can take one.
  pub stopped-IsOver :
      {m n : ℕ} (s t u : Consumer)
      → s.place ≡ declaring
      → Interleaving m s t
      → is_stopped t ≡ true
      → Interleaving n t u
      → (n ≤ 10) × (IsOver u.place ⊎ ((v : Consumer) × Own u v))
  stopped-IsOver s t u start p stop q =
      let (left, stopped) = Interleaving-steps_left q stop in
      let few = steps_left-le t.place (Interleaving-IsSmall p (subst IsSmall (sym start) tt)) in
      (omega arith, goes_on u u.place refl stopped)
