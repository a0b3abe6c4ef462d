-- ===== src/Tests/Journey.antt =====
-- A StartTransaction from its socket to its socket, and what a broker makes of publish.
use levity.Prelude.{ℕ, ◌≡◌, refl, true, [], ◌∷◌, In}
use levity.Gateway.Client.{new_client}
use levity.Gateway.Server.{on_receive, rpc_receive, rpc_body}
use levity.Gateway.State.{Gateway, returned, find_client}
use levity.Memory.{to_text, to_json}
use levity.Models.Rows.{Transaction, clash, same_actor, is_open_for}
use levity.Models.World.{World, done}
use levity.OneOpen.Arrival.{start_frame}
use levity.OneOpen.Rows.{open_count}
use levity.OneOpen.Sent.{started_envelope, started_frame}
use levity.Publisher.{publish}
use levity.Publisher.Attempts.{publish-Tried, Tried}
use levity.Serialization.{json_encode}
use levity.Services.Events.{handle_websocket_event}
use levity.System.Answering.{on_receive-answered, passing_on, passed_on}
use levity.Tests.Samples.{calm, flaky, empty, number, start_content}
use levity.Tests.Sockets.{quiet, no_clients}
use levity.Tests.Starts.{metered, metered-Readable, start_content_lem}
use levity.Tests.Witnesses.{charging-OneOpen}
use levity.Value.{Value, str, obj}

-- The charge point on its first socket, and on its second.
abbrev socket : ℕ → Gateway
socket n = record no_clients { clients = ("1234", new_client n) ∷ [] }

abbrev start : Value
start = start_frame (str "8") (obj start_content)

on_receive-answered_example :
    (w : World) × (t : Transaction) × (on_receive ⦃r = quiet⦄ "1234" 1 start (socket 1)
      ≡ returned (passing_on ⦃r = quiet⦄ "1234" start (new_client 1) (socket 1)))
    × (handle_websocket_event ⦃p = calm⦄ (rpc_body "q" (passed_on "1234" start)) metered
        ≡ done tt w)
    × (w.sent ≡ ("q", started_envelope ⦃p = calm⦄ "1234" (str "8") t) ∷ [])
    × (rpc_receive ⦃r = quiet⦄ (started_envelope ⦃p = calm⦄ "1234" (str "8") t) (socket 2)
        ≡ returned (record (socket 2) {
          send_attempts = 1;
          frames = ((new_client 2).websocket, started_frame ⦃p = calm⦄ (str "8") t) ∷ [];
        }))
    × In t w.transactions
    × (is_open_for "1234" t ≡ true)
    × (open_count "1234" w.transactions ≡ 1)
unfolding find_client to_text to_json clash same_actor
on_receive-answered_example =
    on_receive-answered ⦃r = quiet⦄ ⦃p = calm⦄ "1234" "q" 1 (str "8") (obj start_content) "8"
      (obj start_content) (new_client 1) (new_client 2) (socket 1) (socket 2) metered refl refl refl
      refl refl (λ n. refl) (λ fs. (obj fs, refl)) refl refl refl refl start_content_lem
      charging-OneOpen metered-Readable (refl, refl)

publish-Tried_example :
    Tried ⦃p = flaky 2⦄ "q" (number 1) empty 5 (publish ⦃p = flaky 2⦄ "q" (number 1) empty)
unfolding json_encode
publish-Tried_example = publish-Tried ⦃p = flaky 2⦄ "q" (number 1) empty
