-- ===== src/Gateway/Commands/Weights.antt =====
-- What each step of the task of ws/src/levity_ws/cp.py uses up.
use levity.Prelude.{
  ℕ, suc, ◌+◌, ◌*◌, ◌≤◌, ◌≡◌, refl, sym, subst, String, Bool, true, List, [], ◌∷◌, inl, inr, length,
  Bool-cases, Option-cases, arith, if◌then◌else◌,
}
use levity.Gateway.Commands.{
  Woken, message, cancelled, Place, declaring, declaring_exchange, binding, IsBroker, in_declaring,
  in_declaring_exchange, in_binding, in_outer, in_iterating, in_asleep, in_taken, outer, iterating,
  asleep, woken, taken, sending, awaiting_reply, ended, crashed, Consumer, is_stopped, messages,
  cancellations, IsDone, key_of, register_command, take_command, send_command, Own, queue_declared,
  exchange_declared, bound, leaves, enters, stops, sleeps, wakes, fails, yields, cancels, checks,
  takes, sends, hears, times_out, breaks,
}
use levity.Gateway.State.{Runtime}
use levity.Types.Error.{Result, ok, err}
use levity.Value.{Value}

abbrev weight : List Woken → ℕ
weight [] = 0
weight (message b ∷ ds) = 4 + weight ds
weight (cancelled ∷ ds) = 1 + weight ds

-- How many steps are left at most, once an event is set.
abbrev pub steps_left : Place → ℕ
steps_left declaring = 4
steps_left declaring_exchange = 3
steps_left binding = 2
steps_left outer = 1
steps_left iterating = 2
steps_left asleep = 10
steps_left (woken ds) = 3 + weight ds
steps_left (taken b ds) = 6 + weight ds
steps_left (sending k c ds) = 5 + weight ds
steps_left (awaiting_reply k ds) = 4 + weight ds
steps_left ended = 0
steps_left (crashed e) = 0

weight-eq : (ds : List Woken) → weight ds ≡ 4 * length (messages ds) + cancellations ds
weight-eq [] = omega arith
weight-eq (message b ∷ ds) = omega (arith, weight-eq ds)
weight-eq (cancelled ∷ ds) = omega (arith, weight-eq ds)

weight-le :
    (s : Consumer) (done : List Woken) (rest : List (Result Value))
    → IsDone s.queue (is_stopped s) 2 done rest
    → weight done ≤ 6
weight-le s done rest d = omega (arith, weight-eq done, d.one_message, d.at_most_events)

-- The lists that can stand at a place.
abbrev pub IsSmall : Place → Type 0
IsSmall (woken ds) = weight ds ≤ 6
IsSmall (taken b ds) = weight ds ≤ 2
IsSmall (sending k c ds) = weight ds ≤ 2
IsSmall (awaiting_reply k ds) = weight ds ≤ 2
IsSmall place = Unit

IsBroker-steps_left : {p : Place} → IsBroker p → 1 ≤ steps_left p
IsBroker-steps_left in_declaring = omega arith
IsBroker-steps_left in_declaring_exchange = omega arith
IsBroker-steps_left in_binding = omega arith
IsBroker-steps_left in_outer = omega arith
IsBroker-steps_left in_iterating = omega arith
IsBroker-steps_left in_asleep = omega arith
IsBroker-steps_left (in_taken b ds) = omega arith

-- What a step of the task keeps and uses up.
pub record Uses (s t : Consumer) : Type 0 where
  pub same_shutdown : t.shutdown ≡ s.shutdown
  pub same_disconnected : t.disconnected ≡ s.disconnected
  pub fewer : is_stopped s ≡ true → suc (steps_left t.place) ≤ steps_left s.place
  pub small : IsSmall s.place → IsSmall t.place

uses :
    (s t : Consumer) (p q : Place)
    → t.shutdown ≡ s.shutdown
    → t.disconnected ≡ s.disconnected
    → s.place ≡ p
    → t.place ≡ q
    → (is_stopped s ≡ true → suc (steps_left q) ≤ steps_left p)
    → (IsSmall p → IsSmall q)
    → Uses s t
uses s t p q sd dc at_p at_q fewer small = record {
  same_shutdown = sd;
  same_disconnected = dc;
  fewer = λ h. rw (at_p, at_q) (fewer h);
  small = λ h. subst IsSmall (sym at_q) (small (subst IsSmall at_p h));
}

module _ ⦃r : Runtime⦄ where
  register_command-Uses :
      (b : Result Value) (c : Value) (ds : List Woken) (s : Consumer)
      → s.place ≡ taken b ds
      → (k : Result String) → key_of c ≡ k
      → Uses s (register_command c ds s)
  unfolding register_command
  register_command-Uses b c ds s at_b (ok k) e =
      rw (e, register_command)
        (uses s _ (taken b ds) (sending k c ds) refl refl at_b refl (λ h. omega arith) (λ h. h))
  register_command-Uses b c ds s at_b (err x) e =
      rw (e, register_command)
        (uses s _ (taken b ds) (crashed x) refl refl at_b refl (λ h. omega arith) (λ h. tt))

  take_command-Uses :
      (b : Result Value) (ds : List Woken) (s : Consumer)
      → s.place ≡ taken b ds
      → Uses s (take_command b ds s)
  unfolding take_command
  take_command-Uses (err e) ds s at_b =
      uses s _ (taken (err e) ds) (crashed e) refl refl at_b refl (λ h. omega arith) (λ h. tt)
  take_command-Uses (ok c) ds s at_b =
      let choice : Bool → Consumer =
        λ b. if b then register_command c ds s else record s { place = woken ds } in
      elim (Bool-cases s.registered) [
        | inl known ↦
            subst (λ b. Uses s (choice b)) (sym known)
              (register_command-Uses (ok c) c ds s at_b _ refl)
        | inr unknown ↦
            subst (λ b. Uses s (choice b)) (sym unknown)
              (uses s _ (taken (ok c) ds) (woken ds) refl refl at_b refl (λ h. omega arith)
                (λ h. omega arith))
      ]

  send_command-Uses :
      (k : String) (c : Value) (ds : List Woken) (s : Consumer)
      → s.place ≡ sending k c ds
      → Uses s (send_command k c ds s)
  unfolding send_command
  send_command-Uses k c ds s at_k = elim (Option-cases (r.send_error s.send_attempts)) [
    | inl fine ↦
        rw (fine, send_command)
          (uses s _ (sending k c ds) (awaiting_reply k ds) refl refl at_k refl (λ h. omega arith)
            (λ h. h))
    | inr (e, broken) ↦
        rw (broken, send_command)
          (uses s _ (sending k c ds) (crashed e) refl refl at_k refl (λ h. omega arith) (λ h. tt))
  ]

  pub Own-Uses : {s t : Consumer} → Own s t → Uses s t
  Own-Uses (queue_declared s at_p) =
      uses s _ declaring declaring_exchange refl refl at_p refl (λ h. omega arith) (λ h. tt)
  Own-Uses (exchange_declared s at_p) =
      uses s _ declaring_exchange binding refl refl at_p refl (λ h. omega arith) (λ h. tt)
  Own-Uses (bound s at_p) = uses s _ binding outer refl refl at_p refl (λ h. omega arith) (λ h. tt)
  Own-Uses (leaves s at_p stop) =
      uses s _ outer ended refl refl at_p refl (λ h. omega arith) (λ h. tt)
  Own-Uses (enters s at_p go) = uses s _ outer iterating refl refl at_p refl (λ h. cc) (λ h. tt)
  Own-Uses (stops s at_p stop) =
      uses s _ iterating outer refl refl at_p refl (λ h. omega arith) (λ h. tt)
  Own-Uses (sleeps s at_p go) = uses s _ iterating asleep refl refl at_p refl (λ h. cc) (λ h. tt)
  Own-Uses (wakes s done rest at_p d) =
      let light = weight-le s done rest d in
      uses s _ asleep (woken done) refl refl at_p refl (λ h. omega arith) (λ h. light)
  Own-Uses (fails s e at_p) =
      uses s _ s.place (crashed e) refl refl refl refl (λ h. IsBroker-steps_left at_p) (λ h. tt)
  Own-Uses (yields s b ds at_p) =
      uses s _ (woken (message b ∷ ds)) (taken b ds) refl refl at_p refl (λ h. omega arith)
        (λ h. omega arith)
  Own-Uses (cancels s ds at_p) =
      uses s _ (woken (cancelled ∷ ds)) (woken ds) refl refl at_p refl (λ h. omega arith)
        (λ h. omega arith)
  Own-Uses (checks s at_p) =
      uses s _ (woken []) iterating refl refl at_p refl (λ h. omega arith) (λ h. tt)
  Own-Uses (takes s b ds at_p) = take_command-Uses b ds s at_p
  Own-Uses (sends s k c ds at_p) = send_command-Uses k c ds s at_p
  Own-Uses (hears s k ds at_p heard) =
      uses s _ (awaiting_reply k ds) (woken ds) refl refl at_p refl (λ h. omega arith)
        (λ h. omega arith)
  Own-Uses (times_out s k ds at_p) =
      uses s _ (awaiting_reply k ds) (woken ds) refl refl at_p refl (λ h. omega arith)
        (λ h. omega arith)
  Own-Uses (breaks s k ds at_p stop) =
      uses s _ (awaiting_reply k ds) (woken ds) refl refl at_p refl (λ h. omega arith)
        (λ h. omega arith)
