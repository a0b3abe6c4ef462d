-- ===== src/Objects/Meters.antt =====
-- be/ocpp/models/meter_value.py: a sampled value becomes a row, with the protocol's defaults.
use levity.Prelude.{ℕ, String, Bool, false}
use levity.Dict.{get}
use levity.Models.Rows.{MeterValue}
use levity.Models.World.{Exec, created, lift, ◌>>=◌}
use levity.Platform.{Platform}
use levity.Value.{Value, null, str, or_else}

abbrev pub energy_register : String
energy_register = "Energy.Active.Import.Register"

module _ ⦃p : Platform⦄ where
  -- `MeterValue.objects.create(…)`
  unfoldable pub insert_meter_value : MeterValue → Exec MeterValue
  insert_meter_value r w =
      created (λ rows. record w { meter_values = rows }) w
        (p.meter_value_table.create r w.meter_values)

  -- `sample.get(key) or default`, as a text column stores it
  unfoldable pub text_column : ℕ → Value → String → String → Exec String
  text_column size sample key default = do
    given ← lift (get sample key null)
    lift (p.char_field size (or_else given (str default)))

  unfoldable pub create_from_json : ℕ → Value → Value → Bool → Exec MeterValue
  create_from_json transaction timestamp sample is_final = do
    time ← lift (p.isoparse timestamp)
    given ← lift (get sample "value" null)
    value ← lift (p.float_field given)
    measurand ← text_column 128 sample "measurand" energy_register
    unit ← text_column 16 sample "unit" "Wh"
    context ← text_column 128 sample "context" "Sample.Periodic"
    format ← text_column 128 sample "format" "Raw"
    location ← text_column 128 sample "location" "Outlet"
    phase ← text_column 128 sample "phase" ""
    insert_meter_value (record {
      id = 0;
      timestamp = time;
      transaction = transaction;
      context = context;
      format = format;
      location = location;
      measurand = measurand;
      phase = phase;
      unit = unit;
      value = value;
      is_final = is_final;
      is_incorrect = false;
    })
