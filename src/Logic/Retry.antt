-- ===== src/Logic/Retry.antt =====
-- Properties of the state, through the `retry` decorator.
use levity.Prelude.{ℕ, zero, suc, ◌≡◌, refl, subst}
use levity.Logic.Keeps.{Keeps}
use levity.Models.World.{World, Exec, Outcome, done, raised, world_of}
use levity.Platform.{Platform}
use levity.Types.Error.{Error, amqp_error}

pub Error-discrete : Discrete Error
Error-discrete = hlevel

module _ ⦃p : Platform⦄ {P : World → Type 0} (f : Exec (Unit {0})) where
  -- One try, by how it ended; AMQPError is left to the caller.
  after_try :
      (n : ℕ) (w : World) (o : Outcome (Unit {0}))
      → f w ≡ o
      → P (world_of o)
      → ((v : World) → f w ≡ raised amqp_error v → P v → P (world_of (p.retry (suc n) f w)))
      → P (world_of (p.retry (suc n) f w))
  after_try n w (done tt v) e h again = rw (p.retry_done n f w v e) h
  after_try n w (raised x v) e h again = elim (Error-discrete x amqp_error) [
    | yes same ↦ again v (subst (λ y. f w ≡ raised y v) same e) h
    | no other ↦ rw (p.retry_other n x f w v other e) h
  ]

  pub retry-Keeps : (n : ℕ) → Keeps P f → Keeps P (p.retry (suc n) f)
  retry-Keeps zero k = record {
    at = λ w h. after_try zero w (f w) refl (k.at w h) (λ v e q. rw (p.retry_last f w v e) q);
  }
  retry-Keeps (suc n) k = record {
    at = λ w h.
        after_try (suc n) w (f w) refl (k.at w h)
          (λ v e q. rw (p.retry_again n f w v e) ((retry-Keeps n k).at v q));
  }
