-- ===== src/Services/Settings.antt =====
-- be/ocpp/utils/settings.py: the OCPP_MIDDLEWARE setting as a configuration. `lru_cache` hashes the
-- argument before it calls the function, and a plain dict cannot be hashed;
-- be/ocpp/apps.py runs the same load when Django starts, so such a setting stops it there.
use levity.Prelude.{String, Option, none, some, List, [], ◌∷◌, str_eq, ◌&&◌, if◌then◌else◌}
use levity.Models.Exchange.{MiddlewareClass}
use levity.Platform.{Platform, MiddlewareSetting, missing, dict, not_a_dict}
use levity.Types.Action.{Action, action_value, parse_action}
use levity.Types.Error.{
  Result, ok, err, value_error, import_error, type_error, assertion_error, improperly_configured,
}
use levity.Types.MessageType.{MessageType, parse_message_type, same_message_type}
use levity.Value.{Value}

infixl 5 ◌>>=◌
abbrev pub ◌>>=◌ {ℓ κ} : {A : Type ℓ} {B : Type κ} → Result A → (A → Result B) → Result B
ok a >>= f = f a
err e >>= f = err e

-- `except ValueError: raise ImproperlyConfigured`, and so for ImportError
abbrev pub except_value_error {ℓ} : {A : Type ℓ} → Result A → Result A
except_value_error (err value_error) = err improperly_configured
except_value_error r = r

abbrev pub except_import_error {ℓ} : {A : Type ℓ} → Result A → Result A
except_import_error (err import_error) = err improperly_configured
except_import_error r = r

-- `_action`
unfoldable pub configured_action : Value → Result Action
configured_action v = except_value_error (parse_action v)

-- `_message_type`
unfoldable pub configured_message_type : Value → Result MessageType
configured_message_type v = except_value_error (parse_message_type v)

abbrev pub Config : Type 0
Config = List (Action × MessageType × List MiddlewareClass)

-- `config.get((action, message_type))`; of two equal keys the later entry stands.
unfoldable pub configured : Action → MessageType → Config → Option (List MiddlewareClass)
configured a t [] = none
configured a t ((b, u, classes) ∷ rest) = elim (configured a t rest) [
  | some later ↦ some later
  | none ↦
      if str_eq (action_value a) (action_value b) && same_message_type t u
      then some classes
      else none
]

module _ ⦃p : Platform⦄ where
  -- `_import_classes`
  unfoldable pub import_classes : List String → Result (List MiddlewareClass)
  import_classes [] = ok []
  import_classes (name ∷ names) = do
    class ← except_import_error (p.import_string name)
    classes ← import_classes names
    ok (class ∷ classes)

  -- `_load_ocpp_middleware_from_dict`, without its cache
  unfoldable pub load_from_items : List (Value × Value × List String) → Result Config
  load_from_items [] = ok []
  load_from_items ((k, t, names) ∷ rest) = do
    action ← configured_action k
    message_type ← configured_message_type t
    classes ← import_classes names
    config ← load_from_items rest
    ok ((action, message_type, classes) ∷ config)

  unfoldable pub load_from_setting : MiddlewareSetting → Result Config
  load_from_setting missing = ok []
  load_from_setting not_a_dict = err assertion_error
  load_from_setting (dict hashable items) =
      if hashable then load_from_items items else err type_error

  unfoldable pub load_ocpp_middleware : Result Config
  load_ocpp_middleware = load_from_setting p.ocpp_middleware
