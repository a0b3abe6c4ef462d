-- ===== src/Memory/Retry.antt =====
-- Trying a call again while it raises AMQPError, as the `retry` decorator does.
use levity.Prelude.{ℕ, zero, suc, ◌≡◌, ◌≢◌, refl}
use levity.Models.World.{Exec, World, Outcome, done, raised}
use levity.Types.Error.{Error, amqp_error}

-- Whether another try follows.
after : (World → Outcome (Unit {0})) → Outcome (Unit {0}) → Outcome (Unit {0})
after again (done u v) = done u v
after again (raised amqp_error v) = again v
after again (raised e v) = raised e v

unfoldable pub try_again : ℕ → Exec (Unit {0}) → Exec (Unit {0})
unfolding after
try_again zero f w = done tt w
try_again (suc zero) f w = f w
try_again (suc (suc n)) f w = after (try_again (suc n) f) (f w)

pub try_again_done :
    (n : ℕ) (f : Exec (Unit {0})) (w v : World)
    → f w ≡ done tt v
    → try_again (suc n) f w ≡ done tt v
unfolding try_again
try_again_done zero f w v h = h
try_again_done (suc n) f w v h = rw h

pub try_again_last :
    (f : Exec (Unit {0})) (w v : World)
    → f w ≡ raised amqp_error v
    → try_again 1 f w ≡ raised amqp_error v
unfolding try_again
try_again_last f w v h = h

pub try_again_again :
    (n : ℕ) (f : Exec (Unit {0})) (w v : World)
    → f w ≡ raised amqp_error v
    → try_again (suc (suc n)) f w ≡ try_again (suc n) f v
unfolding try_again
try_again_again n f w v h = rw h

after-raised :
    (e : Error) (again : World → Outcome (Unit {0})) (v : World)
    → e ≢ amqp_error
    → after again (raised e v) ≡ raised e v
unfolding after
after-raised amqp_error again v ne = absurd (ne refl)
after-raised _ again v ne = refl

pub try_again_other :
    (n : ℕ) (e : Error) (f : Exec (Unit {0})) (w v : World)
    → e ≢ amqp_error
    → f w ≡ raised e v
    → try_again (suc n) f w ≡ raised e v
unfolding try_again
try_again_other zero e f w v ne h = h
try_again_other (suc n) e f w v ne h = rw h (after-raised e (try_again (suc n) f) v ne)
