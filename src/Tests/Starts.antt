-- ===== src/Tests/Starts.antt =====
-- A StartTransaction of a charge point that left a transaction open.
use levity.Prelude.{sym, ◌∙◌, ◌≡◌, refl, pos, some, [], ◌∷◌, In, here, there, true, false, ℤ}
use levity.Dict.{subscript}
use levity.Memory.{to_text, to_integer, to_json}
use levity.Middleware.Base.{handle_response}
use levity.Middleware.Metering.{handle_start_transaction}
use levity.Middleware.Orphans.{handle_orphaned_transaction}
use levity.Models.Exchange.{OcppRequest, OcppResponse}
use levity.Models.Rows.{Transaction, MeterValue, clash, same_actor, is_open_for}
use levity.Models.World.{World, done}
use levity.OneOpen.Answered.{start_transaction-answered}
use levity.Middleware.Orphans.{stop_all}
use levity.OneOpen.Closing.{stop_all-Closes, Rowwise, Closes, Keyed}
use levity.OneOpen.Sent.{handle_call-answers, started_envelope}
use levity.Services.CallHandler.{handle_call}
use levity.OneOpen.Opening.{IsStart, IsAnswer, Readable, started_content}
use levity.OneOpen.Rows.{open_count}
use levity.Objects.Meters.{energy_register}
use levity.Tests.Samples.{station, calm, number, start_content, request, charging, result_message}
use levity.Tests.Witnesses.{charging-OneOpen}
use levity.Types.Action.{start_transaction}
use levity.Types.Error.{ok}
use levity.Value.{str, lookup, obj, end}

abbrev reading : MeterValue
reading = record {
  id = 0;
  timestamp = 5;
  transaction = 0;
  context = "";
  format = "";
  location = "";
  measurand = energy_register;
  phase = "";
  unit = "Wh";
  value = number 75;
  is_final = false;
  is_incorrect = false;
}

-- With a reading, and with a message that is stored.
abbrev pub metered : World
metered = record charging { meter_values = reading ∷ []; messages = result_message ∷ [] }

abbrev start_request : OcppRequest
start_request = request start_transaction start_content

pub start_content_lem : IsStart ⦃p = calm⦄ start_request.message.content
unfolding subscript lookup to_text to_integer
start_content_lem = record {
  connector = str "1";
  connector_id = "1";
  tag = str "tag";
  id_tag = "tag";
  meter = number 100;
  meter_start = pos 100;
  has_connector = refl;
  has_tag = refl;
  has_meter = refl;
  connector_fits = refl;
  tag_fits = refl;
  meter_fits = refl;
}

reading_fits : (r : MeterValue) → In r (reading ∷ []) → (z : ℤ) × (to_integer r.value ≡ ok z)
unfolding to_integer
reading_fits r (here e) = rw e (pos 75, refl)
reading_fits r (there rest) = elim rest [ ]

pub metered-Readable : Readable ⦃p = calm⦄ metered.meter_values
unfolding to_integer
metered-Readable = (reading_fits, (pos 0, refl))

start_transaction-answered_example :
    (res : OcppResponse) × (w : World) × (t : Transaction) × (handle_orphaned_transaction ⦃p = calm⦄
        (handle_start_transaction ⦃p = calm⦄ (handle_response ⦃p = calm⦄))
        start_request
        metered
      ≡ done res w)
    × In t w.transactions
    × (is_open_for "1234" t ≡ true)
    × (res.transaction ≡ some t.id)
    × (res.message.content ≡ started_content t)
    × (res.side_effects ≡ [])
    × IsAnswer start_request.message res.message
    × (open_count "1234" w.transactions ≡ 1)
unfolding to_text to_json clash same_actor
start_transaction-answered_example =
    start_transaction-answered ⦃p = calm⦄ start_request metered "7" (obj end) charging-OneOpen
      metered-Readable start_content_lem refl refl refl refl

charging-Keyed : Keyed metered.transactions
charging-Keyed r s (here i) (here j) same = i ∙ sym j
charging-Keyed r s (there rest) j same = elim rest [ ]
charging-Keyed r s (here i) (there rest) same = elim rest [ ]

stop_all-Closes_example :
    (w : World) × (stop_all ⦃p = calm⦄ "1234" metered ≡ done tt w)
    × Rowwise (Closes ⦃p = calm⦄ "1234" metered) metered.transactions w.transactions
stop_all-Closes_example = stop_all-Closes ⦃p = calm⦄ "1234" metered charging-Keyed metered-Readable

handle_call-answers_example :
    (w : World) × (t : Transaction) × (handle_call ⦃p = calm⦄ station start_request.message metered
      ≡ done tt w)
    × (w.sent ≡ ("q", started_envelope ⦃p = calm⦄ "1234" (str "7") t) ∷ [])
    × In t w.transactions
    × (is_open_for "1234" t ≡ true)
    × (open_count "1234" w.transactions ≡ 1)
unfolding to_text to_json clash same_actor
handle_call-answers_example =
    handle_call-answers ⦃p = calm⦄ station start_request.message metered "7" refl (λ n. refl)
      (λ fs. (obj fs, refl)) charging-OneOpen metered-Readable start_content_lem refl refl refl refl
