-- ===== src/Memory/Threads.antt =====
-- The `retry` decorator on the state of a publishing thread, and a broker for it.
use levity.Prelude.{ℕ, zero, suc, ◌≡◌, ◌≢◌, refl, false, ltb, ◌-◌}
use levity.Publisher.Connection.{Call, Pika, Retry, State}
use levity.Types.Error.{Error, Result, ok, err, amqp_error}

-- Whether another try follows.
after : (State → State × Result (Unit {0})) → State × Result (Unit {0}) → State × Result (Unit {0})
after again (s, ok u) = (s, ok u)
after again (s, err amqp_error) = again s
after again (s, err e) = (s, err e)

unfoldable pub try_again : ℕ → Call → Call
unfolding after
try_again zero f s = (s, ok tt)
try_again (suc zero) f s = f s
try_again (suc (suc n)) f s = after (try_again (suc n) f) (f s)

pub done_lem :
    (n : ℕ) (f : Call) (s v : State) → f s ≡ (v, ok tt) → try_again (suc n) f s ≡ (v, ok tt)
unfolding try_again
done_lem zero f s v h = h
done_lem (suc n) f s v h = rw h refl

pub again_lem :
    (n : ℕ) (f : Call) (s v : State)
    → f s ≡ (v, err amqp_error)
    → try_again (suc (suc n)) f s ≡ try_again (suc n) f v
unfolding try_again
again_lem n f s v h = rw h refl

after-raised :
    (e : Error) (again : Call) (v : State) → e ≢ amqp_error → after again (v, err e) ≡ (v, err e)
unfolding after
after-raised amqp_error again v ne = absurd (ne refl)
after-raised _ again v ne = refl

pub other_lem :
    (n : ℕ) (e : Error) (f : Call) (s v : State)
    → e ≢ amqp_error
    → f s ≡ (v, err e)
    → try_again (suc n) f s ≡ (v, err e)
unfolding try_again
other_lem zero e f s v ne h = h
other_lem (suc n) e f s v ne h = rw h (after-raised e (try_again (suc n) f) v ne)

pub last_lem :
    (f : Call) (s v : State) → f s ≡ (v, err amqp_error) → try_again 1 f s ≡ (v, err amqp_error)
unfolding try_again
last_lem f s v h = h

abbrev pub thread_retry : Retry
thread_retry = record {
  retry = try_again;
  retry_done = done_lem;
  retry_last = last_lem;
  retry_again = again_lem;
  retry_other = other_lem;
}

-- The first connection is refused, and each is closed when three runs have passed.
abbrev pub restless : Pika
restless = record {
  is_closed = λ connection run. ltb 2 (run - connection);
  connection_fails = λ run. ltb run 1;
  channel_fails = λ run. false;
  publish_fails = λ channel run. false;
}

-- The first channel is refused.
abbrev pub refusing : Pika
refusing = record restless {
  is_closed = λ connection run. false;
  connection_fails = λ run. false;
  channel_fails = λ run. ltb run 1;
}
