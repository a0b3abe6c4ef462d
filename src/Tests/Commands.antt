-- ===== src/Tests/Commands.antt =====
-- The theorems about a client's task and about the commands on concrete inputs.
use levity.Prelude.{
  ℕ, ◌≤◌, ◌-◌, ◌+◌, ltb, ◌≡◌, refl, ◌⊎◌, true, false, none, some, List, [], ◌∷◌, pos, arith,
}
use levity.Dict.{first}
use levity.Gateway.Client.{new_client, second, take_reply}
use levity.Gateway.Commands.{
  Consumer, declaring, asleep, taken, message, Own, Other, Interleaving, here, own, other,
  queue_declared, exchange_declared, bound, enters, sleeps, wakes, yields, takes, sends,
  disconnects, take_command, send_command, register_command, IsDone, is_stopped,
}
use levity.Gateway.Commands.Ending.{stopped-IsOver, IsOver}
use levity.Gateway.Commands.Replies.{while_waiting, awaiting-replied}
use levity.Management.Corrections.{is_jump, correct_meter_values, read_values}
use levity.Management.Corrections.Jumps.{
  read_values-jumps, add_deltas, jumps_of, pairs_of, rows_for, after_marks,
}
use levity.Management.Corrections.Kept.{
  dry_run-unprinted, correct_meter_values-uncorrected, unprinted, uncorrected,
}
use levity.Management.Report.{run_report}
use levity.Management.Reporting.{Reporting}
use levity.Models.Rows.{Transaction, MeterValue}
use levity.Models.World.{World, world_of, done}
use levity.Objects.Meters.{energy_register}
use levity.Tests.Samples.{calm, charging, number, call_frame}
use levity.Tests.Sockets.{quiet}
use levity.Types.Error.{ok}
use levity.Value.{truthy, Value, num, end}

abbrev command : Value
command = call_frame "8" "RemoteStartTransaction" end

abbrev started : Consumer
started = record {
  client = new_client 1;
  place = declaring;
  shutdown = false;
  disconnected = false;
  registered = true;
  queue = ok command ∷ [];
  replied = false;
  frames = [];
  send_attempts = 0;
}

abbrev ready : Consumer
ready = record started { place = asleep; client = record (started.client) { has_exchange = true } }

abbrev with_command : Consumer
with_command = record ready { place = taken (ok command) []; queue = [] }

abbrev opened : Consumer
opened = take_command ⦃r = quiet⦄ (ok command) [] with_command

abbrev waiting : Consumer
waiting = send_command ⦃r = quiet⦄ "8" command [] opened

waking : IsDone ready.queue (is_stopped ready) 2 (message (ok command) ∷ []) []
waking = record {
  some_done = λ e. cc;
  one_message = omega arith;
  at_most_events = omega arith;
  events_set = λ h. absurd (omega arith);
  next_message = refl;
}

waiting-Interleaving : Interleaving ⦃r = quiet⦄ 9 started waiting
unfolding take_command register_command first second
waiting-Interleaving =
    own
      (own
        (own
          (own
            (own
              (own
                (own (own (own (here started) (queue_declared _ refl)) (exchange_declared _ refl))
                  (bound _ refl))
                (enters _ refl refl))
              (sleeps _ refl refl))
            (wakes ready (message (ok command) ∷ []) [] refl waking))
          (yields _ (ok command) [] refl))
        (takes with_command (ok command) [] refl))
      (sends opened "8" command [] refl)

awaiting-replied_example :
    (waiting.replied ≡ true)
    ⊎ ((u : Consumer) × Other waiting u
        × (u.client ≡ take_reply waiting.client "8")
        × (u.place ≡ waiting.place)
        × (u.replied ≡ true))
unfolding take_command register_command send_command first second
awaiting-replied_example =
    awaiting-replied ⦃r = quiet⦄ started waiting "8" refl waiting-Interleaving (while_waiting [])

abbrev leaving : Consumer
leaving = record waiting { disconnected = true }

leaving-Interleaving : Interleaving ⦃r = quiet⦄ 9 started leaving
leaving-Interleaving = other waiting-Interleaving (disconnects waiting)

stopped-IsOver_example :
    (0 ≤ 10) × (IsOver leaving.place ⊎ ((v : Consumer) × Own ⦃r = quiet⦄ leaving v))
unfolding take_command register_command send_command first second
stopped-IsOver_example =
    stopped-IsOver ⦃r = quiet⦄ started leaving leaving refl leaving-Interleaving refl (here leaving)

abbrev whole_part : Value → ℕ
whole_part (num (pos n) s) = n
whole_part v = 0

-- Dates as they are, and the arithmetic of whole numbers.
abbrev plain : Reporting
plain = record {
  by_started_at = λ rows. rows;
  by_timestamp = λ rows. rows;
  localize = λ t. t;
  strftime = λ t. "T";
  greater = λ a b. ltb (whole_part b) (whole_part a);
  minus = λ a b. number (whole_part a - whole_part b);
  plus = λ a b. number (whole_part a + whole_part b);
  negate = λ a. a;
  round_to = λ a digits. a;
}

abbrev reading : ℕ → ℕ → MeterValue
reading id energy = record {
  id = id;
  timestamp = id;
  transaction = 0;
  context = "Sample.Periodic";
  format = "Raw";
  location = "Outlet";
  measurand = energy_register;
  phase = "";
  unit = "Wh";
  value = number energy;
  is_final = false;
  is_incorrect = false;
}

abbrev readings : List MeterValue
readings = reading 1 100 ∷ reading 2 30100 ∷ reading 3 30200 ∷ []

abbrev finished : Transaction
finished = record {
  id = 0;
  charge_point = "1234";
  started_at = some 3;
  stopped_at = some 9;
  connector_id = "1";
  id_tag = "tag";
  meter_start = pos 100;
  meter_stop = pos 30200;
  meter_correction = pos 0;
  stop_reason = none;
}

abbrev metered : World
metered = record charging { transactions = finished ∷ []; meter_values = readings }

dry_run-unprinted_example :
    (unprinted (world_of (correct_meter_values ⦃p = calm⦄ ⦃q = plain⦄ 0 10 true metered))
      ≡ unprinted metered)
    × (unprinted (world_of (run_report ⦃p = calm⦄ ⦃q = plain⦄ "transaction" 0 10 metered))
        ≡ unprinted metered)
dry_run-unprinted_example = dry_run-unprinted ⦃p = calm⦄ ⦃q = plain⦄ 0 10 "transaction" metered

correct_meter_values-uncorrected_example :
    uncorrected (world_of (correct_meter_values ⦃p = calm⦄ ⦃q = plain⦄ 0 10 false metered))
    ≡ uncorrected metered
correct_meter_values-uncorrected_example =
    correct_meter_values-uncorrected ⦃p = calm⦄ ⦃q = plain⦄ 0 10 metered

read_values-jumps_example :
    read_values ⦃p = calm⦄ ⦃q = plain⦄ false finished none readings (number 0) [] metered
    ≡ done
        (
          add_deltas ⦃p = calm⦄ ⦃q = plain⦄
              (number 0)
              (jumps_of ⦃p = calm⦄ ⦃q = plain⦄ (pairs_of readings)),
          rows_for ⦃p = calm⦄ ⦃q = plain⦄ finished "1234 / "
              (jumps_of ⦃p = calm⦄ ⦃q = plain⦄ (pairs_of readings)),
        )
        (after_marks ⦃p = calm⦄ ⦃q = plain⦄ false
          (jumps_of ⦃p = calm⦄ ⦃q = plain⦄ (pairs_of readings))
          metered)
read_values-jumps_example =
    read_values-jumps ⦃p = calm⦄ ⦃q = plain⦄ false finished readings "1234 / " metered refl

-- The jump from 100 to 30100 is found, and no other.
jumps_example :
    jumps_of ⦃p = calm⦄ ⦃q = plain⦄ (pairs_of readings) ≡ (reading 1 100, reading 2 30100) ∷ []
unfolding is_jump truthy
jumps_example = refl
