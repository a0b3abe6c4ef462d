-- ===== src/Memory.antt =====
-- A platform that runs: tables kept in lists, fields that take what fits, a broker that takes every
-- message. It meets the laws of Platform, and the examples run on it.
pub mod Tables
pub mod Retry
pub mod Threads
use Tables.{table, keyed_table}
use Retry.{try_again, try_again_done, try_again_last, try_again_again, try_again_other}
use levity.Prelude.{ℕ, String, Bool, true, false, ℤ, pos, negsuc, ◌/◌, ◌^◌}
use levity.Models.Rows.{clash}
use levity.Platform.{Platform, missing, MiddlewareSetting}
use levity.Types.PublishRun.{PublishRun}
use levity.Types.Error.{
  Error, Result, ok, err, value_error, integrity_error, type_error, import_error,
}
use levity.Value.{Value, null, bool, num, str, arr, obj, enum_member, datetime}

-- Texts fit as they are, and nothing else is one.
unfoldable pub to_text : ℕ → Value → Result String
to_text size (str t) = ok t
to_text size null = err integrity_error
to_text size v = err value_error

-- Numbers are cut to whole ones.
unfoldable pub to_integer : Value → Result ℤ
to_integer (num (pos m) s) = ok (pos (m / 10 ^ s))
to_integer (num (negsuc m) s) = ok (negsuc (m / 10 ^ s))
to_integer null = err integrity_error
to_integer v = err value_error

unfoldable pub to_float : Value → Result Value
to_float (num m s) = ok (num m s)
to_float null = err integrity_error
to_float v = err value_error

unfoldable pub to_json : Value → Result Value
to_json null = err integrity_error
to_json v = ok v

-- A timestamp is a whole number here.
unfoldable pub to_time : Value → Result ℕ
to_time (num (pos m) s) = ok (m / 10 ^ s)
to_time v = err value_error

abbrev pub memory : MiddlewareSetting → (ℕ → PublishRun) → Platform
memory setting runs = record {
  charge_point_table = keyed_table (λ r. r.id);
  transaction_table = table (λ r. r.id) (λ k r. record r { id = k }) (λ r s. false);
  message_table = table (λ r. r.id) (λ k r. record r { id = k }) clash;
  meter_value_table = table (λ r. r.id) (λ k r. record r { id = k }) (λ r s. false);
  websocket_event_table = table (λ r. r.id) (λ k r. record r { id = k }) (λ r s. false);
  char_field = to_text;
  integer_field = to_integer;
  float_field = to_float;
  json_field = to_json;
  isoparse = to_time;
  isoformat = λ t. "T";
  utc_now = λ n. n;
  uuid4 = λ n. "u";
  publish_run = runs;
  retry = try_again;
  retry_done = try_again_done;
  retry_last = try_again_last;
  retry_again = try_again_again;
  retry_other = try_again_other;
  has_fluentd = false;
  ocpp_middleware = setting;
  import_string = λ name. err import_error;
  custom_handle = λ name next. next;
}
