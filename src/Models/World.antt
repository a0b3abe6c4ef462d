-- ===== src/Models/World.antt =====
-- The state that the backend's code reads and writes, and a call as a function on it. Each ORM call
-- commits by itself, so the state comes back after a raise too.
use levity.Prelude.{ℕ, String, List, Bool, true, false, Option, none, some}
use levity.Models.Rows.{ChargePoint, Transaction, Message, MeterValue, WebsocketEvent}
use levity.Types.Error.{Error, Result, ok, err}
use levity.Value.{Value}

pub record World : Type 0 where
  pub charge_points : List ChargePoint
  pub transactions : List Transaction
  pub messages : List Message
  pub meter_values : List MeterValue
  pub websocket_events : List WebsocketEvent
  -- counter increments: the counter's name and the charge point's label
  pub counted : List (String × String)
  -- records handed to fluentd
  pub emitted : List (String × Value)
  -- rows of the tables that commands print
  pub printed : List (List Value)
  -- messages that the broker has taken: the queue's name and the body
  pub sent : List (String × Value)
  -- how often the broker, the clock and the id generator were called
  pub publish_attempts : ℕ
  pub clock_reads : ℕ
  pub ids_drawn : ℕ

pub data Outcome {ℓ} (A : Type ℓ) : Type ℓ where
  done : A → World → Outcome A
  raised : Error → World → Outcome A

abbrev pub Exec {ℓ} : Type ℓ → Type ℓ
Exec A = World → Outcome A

module _ {ℓ} {A : Type ℓ} where
  unfoldable pub pure : A → Exec A
  pure a w = done a w

  unfoldable pub raise : Error → Exec A
  raise e w = raised e w

  unfoldable pub lift : Result A → Exec A
  lift (ok a) w = done a w
  lift (err e) w = raised e w

  -- A call that depends on the state in which it begins.
  unfoldable pub reads : (World → Exec A) → Exec A
  reads m w = m w w

  abbrev pub world_of : Outcome A → World
  world_of (done a w) = w
  world_of (raised e w) = w

-- What `objects.create` comes to: IntegrityError, or the new object and the state with its table.
unfoldable pub created {ℓ} :
    {Row : Type ℓ} → (List Row → World) → World → Option (Row × List Row) → Outcome Row
created put w none = raised Error.integrity_error w
created put w (some (row, rows)) = done row (put rows)

unfoldable pub modify : (World → World) → Exec (Unit {0})
modify f w = done tt (f w)

-- `assert`
unfoldable pub assert : Bool → Exec (Unit {0})
assert true w = done tt w
assert false w = raised Error.assertion_error w

module _ {ℓ κ} {A : Type ℓ} {B : Type κ} where
  abbrev pub and_then : Outcome A → (A → Exec B) → Outcome B
  and_then (done a w) f = f a w
  and_then (raised e w) f = raised e w

  infixl 5 ◌>>=◌ ◌>>◌
  -- Opening this opens the ways to build a call too.
  unfoldable pub ◌>>=◌ : Exec A → (A → Exec B) → Exec B
  unfolding pure raise lift reads modify assert
  ◌>>=◌ m f w = and_then (m w) f

  abbrev pub ◌>>◌ : Exec A → Exec B → Exec B
  m >> k = m >>= λ _. k
