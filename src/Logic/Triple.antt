-- ===== src/Logic/Triple.antt =====
-- Calls with a condition before and one for each way to end.
use levity.Logic.Keeps.{Keeps}
use levity.Models.World.{World, Exec, Outcome, done, raised, world_of, and_then, ◌>>=◌}

-- How a call ended: `Q` of its result and state, or `R` of the state in which it raised.
abbrev pub Ends {ℓ κ} : {A : Type ℓ} → (A → World → Type κ) → (World → Type κ) → Outcome A → Type κ
Ends Q R (done a w) = Q a w
Ends Q R (raised e w) = R w

pub record Triple {ℓ κ} {A : Type ℓ} (P : World → Type κ) (Q : A → World → Type κ)
    (R : World → Type κ) (m : Exec A) : Type κ where
  pub at : (w : World) → P w → Ends Q R (m w)

module _ {ℓ κ} {A : Type ℓ} {G R : World → Type κ} where
  Keeps-Ends : (o : Outcome A) → G (world_of o) → ((w : World) → G w → R w) → Ends (λ a. G) R o
  Keeps-Ends (done a w) h weaken = h
  Keeps-Ends (raised e w) h weaken = weaken w h

module _ {ℓ κ} {A : Type ℓ} {P G R : World → Type κ} where
  pub Triple-of_Keeps :
      (m : Exec A)
      → Keeps G m
      → ((w : World) → P w → G w)
      → ((w : World) → G w → R w)
      → Triple P (λ a. G) R m
  Triple-of_Keeps m k from weaken = record {
    at = λ w h. Keeps-Ends (m w) (k.at w (from w h)) weaken;
  }

module _ {ℓ κ μ} {A : Type ℓ} {B : Type κ} {R : World → Type μ} where
  then-Ends :
      (Q : A → World → Type μ) (S : B → World → Type μ) (o : Outcome A) (f : A → Exec B)
      → Ends Q R o
      → ((a : A) → Triple (Q a) S R (f a))
      → Ends S R (and_then o f)
  then-Ends Q S (done a w) f h k = (k a).at w h
  then-Ends Q S (raised e w) f h k = h

module _ {ℓ κ μ} {A : Type ℓ} {B : Type κ} {P R : World → Type μ} where
  pub Triple-bind :
      (Q : A → World → Type μ) (S : B → World → Type μ) (m : Exec A) (f : A → Exec B)
      → Triple P Q R m
      → ((a : A) → Triple (Q a) S R (f a))
      → Triple P S R (m >>= f)
  unfolding ◌>>=◌
  Triple-bind Q S m f tm tf = record { at = λ w h. then-Ends Q S (m w) f (tm.at w h) tf }

  -- A first step that keeps the condition.
  pub Triple-step :
      (S : B → World → Type μ) (m : Exec A) (f : A → Exec B)
      → Keeps P m
      → ((w : World) → P w → R w)
      → ((a : A) → Triple P S R (f a))
      → Triple P S R (m >>= f)
  Triple-step S m f k weaken tf =
      Triple-bind (λ a. P) S m f (Triple-of_Keeps m k (λ w h. h) weaken) tf

pub Ends-world_of {ℓ κ} :
    {A : Type ℓ} (R : World → Type κ) (o : Outcome A) → Ends (λ a. R) R o → R (world_of o)
Ends-world_of R (done a w) h = h
Ends-world_of R (raised e w) h = h
