-- ===== src/Platform.antt =====
-- What the backend uses and does not implement, as a parameter: Django's ORM and its column
-- conversions, dateutil, the `retry` decorator, the broker, the clock, the id generator and the
-- settings. The laws are the documented behaviour that the theorems rely on.
pub mod Tables
use Tables.{Table, KeyedTable}
use levity.Prelude.{ℕ, suc, String, Bool, List, ℤ, ◌≡◌, ◌≢◌, false}
use levity.Models.Exchange.{Handler, MiddlewareClass}
use levity.Models.Rows.{ChargePoint, Transaction, Message, MeterValue, WebsocketEvent, clash}
use levity.Models.World.{Exec, World, done, raised}
use levity.Types.PublishRun.{PublishRun}
use levity.Types.Error.{Error, Result, amqp_error}
use levity.Value.{Value}

-- The value of `settings.OCPP_MIDDLEWARE`: missing, a dict of (action, message type) to class
-- names, or something else. A dict's `hashable` tells whether `hash` accepts it; it does not
-- accept a plain dict.
pub data MiddlewareSetting : Type 0 where
  missing : MiddlewareSetting
  dict : (hashable : Bool) → List (Value × Value × List String) → MiddlewareSetting
  not_a_dict : MiddlewareSetting

pub record Platform : Type 0 where
  -- the tables behind `Model.objects`
  pub charge_point_table : KeyedTable ChargePoint (λ r. r.id)
  pub transaction_table : Table Transaction (λ r. r.id) (λ k r. record r { id = k }) (λ r s. false)
  pub message_table : Table Message (λ r. r.id) (λ k r. record r { id = k }) clash
  pub meter_value_table : Table MeterValue (λ r. r.id) (λ k r. record r { id = k }) (λ r s. false)
  pub websocket_event_table :
      Table WebsocketEvent (λ r. r.id) (λ k r. record r { id = k }) (λ r s. false)
  -- what a CharField of a given length, an IntegerField, a FloatField and a JSONField store
  pub char_field : ℕ → Value → Result String
  pub integer_field : Value → Result ℤ
  pub float_field : Value → Result Value
  pub json_field : Value → Result Value
  -- `dateutil.parser.isoparse`, and a datetime as DjangoJSONEncoder writes it
  pub isoparse : Value → Result ℕ
  pub isoformat : ℕ → String
  -- the n-th reading of the clock, the n-th random id, what comes of the n-th run of
  -- the body of `publish`
  pub utc_now : ℕ → ℕ
  pub uuid4 : ℕ → String
  pub publish_run : ℕ → PublishRun
  -- `retry(AMQPError, tries=n)`: the first result other than AMQPError, or that of the last try
  pub retry : ℕ → Exec (Unit {0}) → Exec (Unit {0})
  pub retry_done :
      (n : ℕ) (f : Exec (Unit {0})) (w v : World) → f w ≡ done tt v → retry (suc n) f w ≡ done tt v
  pub retry_last :
      (f : Exec (Unit {0})) (w v : World)
      → f w ≡ raised amqp_error v
      → retry 1 f w ≡ raised amqp_error v
  pub retry_again :
      (n : ℕ) (f : Exec (Unit {0})) (w v : World)
      → f w ≡ raised amqp_error v
      → retry (suc (suc n)) f w ≡ retry (suc n) f v
  pub retry_other :
      (n : ℕ) (e : Error) (f : Exec (Unit {0})) (w v : World)
      → e ≢ amqp_error
      → f w ≡ raised e v
      → retry (suc n) f w ≡ raised e v
  -- settings: whether FLUENTD_HOST is set, and OCPP_MIDDLEWARE
  pub has_fluentd : Bool
  pub ocpp_middleware : MiddlewareSetting
  -- `import_string`, and the handlers of imported classes from outside the package
  pub import_string : String → Result MiddlewareClass
  pub custom_handle : String → Handler → Handler
