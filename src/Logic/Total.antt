-- ===== src/Logic/Total.antt =====
-- Calls that return: triples in which no exception is raised.
use levity.Prelude.{◌≡◌}
use levity.Logic.Triple.{Ends, Triple, Triple-bind}
use levity.Models.World.{World, Exec, Outcome, done, raised, lift, ◌>>=◌}
use levity.Types.Error.{Result, ok}

-- From a state with `P`, `m` returns a result and a state with `Q`.
abbrev pub Total : {A : Type 0} → (World → Type 0) → (A → World → Type 0) → Exec A → Type 0
Total P Q m = Triple P Q (λ w. ⊥) m

module _ {A B : Type 0} {P : World → Type 0} where
  pub Total-bind :
      (Q : A → World → Type 0) (S : B → World → Type 0) (m : Exec A) (f : A → Exec B)
      → Total P Q m
      → ((a : A) → Total (Q a) S (f a))
      → Total P S (m >>= f)
  Total-bind Q S m f = Triple-bind Q S m f

  pub Total-lift :
      (S : B → World → Type 0) (r : Result A) (a : A) (f : A → Exec B)
      → r ≡ ok a
      → Total P S (f a)
      → Total P S (lift r >>= f)
  unfolding ◌>>=◌
  Total-lift S r a f e t = rw e (record { at = t.at })

module _ {A : Type 0} where
  weaken-Ends :
      (Q S : A → World → Type 0) (o : Outcome A)
      → Ends Q (λ v. ⊥) o
      → ((a : A) (v : World) → Q a v → S a v)
      → Ends S (λ v. ⊥) o
  weaken-Ends Q S (done a v) h k = k a v h
  weaken-Ends Q S (raised x v) h k = h

module _ {A : Type 0} {P : World → Type 0} where
  pub Total-weaken :
      (Q S : A → World → Type 0) (m : Exec A)
      → Total P Q m
      → ((a : A) (v : World) → Q a v → S a v)
      → Total P S m
  Total-weaken Q S m t k = record { at = λ w h. weaken-Ends Q S (m w) (t.at w h) k }

module _ {A : Type 0} (P : World → Type 0) (Q : A → World → Type 0) (m : Exec A) (w : World) where
  Ends-returns :
      (o : Outcome A)
      → m w ≡ o
      → Ends Q (λ v. ⊥) o
      → (a : A) × (v : World) × (m w ≡ done a v) × Q a v
  Ends-returns (done a v) e h = (a, v, e, h)
  Ends-returns (raised x v) e h = absurd h

  -- What a total call comes to.
  pub Total-returns : Total P Q m → P w → (a : A) × (v : World) × (m w ≡ done a v) × Q a v
  Total-returns t h = Ends-returns (m w) (λ i. m w) (t.at w h)

-- After an equation about the result of the step before.
pub Total-known :
    {A B : Type 0} (a b : A) (P : World → Type 0) (S : B → World → Type 0) (m : A → Exec B)
    → Total P S (m b)
    → Total (λ w. (a ≡ b) × P w) S (m a)
Total-known a b P S m t = record { at = λ w h. rw h.0 (t.at w h.1) }
