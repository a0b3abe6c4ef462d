-- ===== src/Logic/Keeps.antt =====
-- A rule for each way to build a call; `search` follows the code with them.
use levity.Prelude.{◌≡◌, refl, Bool, true, false, List, Option, none, some, if◌then◌else◌}
use levity.Models.World.{
  World, Exec, Outcome, done, raised, pure, raise, lift, reads, assert, world_of, and_then, created,
  ◌>>=◌,
}
use levity.Types.Error.{Error, Result, ok, err}

-- `m` keeps `P`.
pub record Keeps {ℓ κ} {A : Type ℓ} (P : World → Type κ) (m : Exec A) : Type κ where
  pub at : (w : World) → P w → P (world_of (m w))

module _ {ℓ κ} {A : Type ℓ} {P : World → Type κ} where
  pub Keeps-pure : (a : A) → Keeps P (pure a)
  unfolding pure
  Keeps-pure a = record { at = λ w h. h }

  pub Keeps-raise : (e : Error) → Keeps P (raise {A = A} e)
  unfolding raise
  Keeps-raise e = record { at = λ w h. h }

  pub Keeps-lift : (r : Result A) → Keeps P (lift r)
  unfolding lift
  Keeps-lift (ok a) = record { at = λ w h. h }
  Keeps-lift (err e) = record { at = λ w h. h }

  pub Keeps-reads : (m : World → Exec A) → ((v : World) → Keeps P (m v)) → Keeps P (reads m)
  unfolding reads
  Keeps-reads m k = record { at = λ w. (k w).at w }

  pub Keeps-if : (b : Bool) (m n : Exec A) → Keeps P m → Keeps P n → Keeps P (if b then m else n)
  Keeps-if true m n km kn = km
  Keeps-if false m n km kn = kn

pub Keeps-assert {κ} : {P : World → Type κ} (b : Bool) → Keeps P (assert b)
unfolding assert
Keeps-assert true = record { at = λ w h. h }
Keeps-assert false = record { at = λ w h. h }

module _ {ℓ κ μ} {A : Type ℓ} {B : Type κ} {P : World → Type μ} where
  then-Keeps :
      (o : Outcome A) (f : A → Exec B)
      → P (world_of o)
      → ((a : A) → Keeps P (f a))
      → P (world_of (and_then o f))
  then-Keeps (done a w) f h k = (k a).at w h
  then-Keeps (raised e w) f h k = h

  pub Keeps-bind :
      (m : Exec A) (f : A → Exec B) → Keeps P m → ((a : A) → Keeps P (f a)) → Keeps P (m >>= f)
  unfolding ◌>>=◌
  Keeps-bind m f km kf = record { at = λ w h. then-Keeps (m w) f (km.at w h) kf }

module _ {ℓ κ μ} {A : Type ℓ} {B : Type κ} {P : World → Type μ} where
  -- The rest may use that `r` did not raise.
  pub Keeps-bind-lift :
      (r : Result A) (f : A → Exec B)
      → ((a : A) → r ≡ ok a → Keeps P (f a))
      → Keeps P (lift r >>= f)
  unfolding ◌>>=◌
  Keeps-bind-lift (ok a) f kf = record { at = (kf a refl).at }
  Keeps-bind-lift (err e) f kf = record { at = λ w h. h }

module _ {ℓ μ} {A : Type ℓ} (P : World → Type μ) where
  pub Keeps-created :
      (put : List A → World) (w : World) (o : Option (A × List A))
      → P w
      → ((rows : List A) → P (put rows))
      → P (world_of (created put w o))
  unfolding created
  Keeps-created put w none h k = h
  Keeps-created put w (some (row, rows)) h k = k rows

pub ruleset keeps_rules =
    (Keeps-pure, Keeps-raise, Keeps-lift, Keeps-reads, Keeps-if, Keeps-assert, Keeps-bind)
