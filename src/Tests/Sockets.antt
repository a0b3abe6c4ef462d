-- ===== src/Tests/Sockets.antt =====
-- The theorems about the websocket server on concrete inputs.
use levity.Prelude.{refl, [], ◌∷◌, List, arith, none}
use levity.Tests.Samples.{call_frame, number}
use levity.Gateway.State.{Gateway, Runtime, find_client}
use levity.Gateway.Server.{Happening, connects, receives, disconnects, delivers, serve}
use levity.Gateway.Ordered.{InStep}
use levity.Gateway.Ordered.Steps.{serve-InStep}
use levity.Types.Error.{ok, err, type_error}
use levity.Value.{str, field, end, arr, obj, cons, nil}

abbrev pub quiet : Runtime
quiet = record {
  publish_error = λ n. none;
  send_error = λ n. none;
  hash_key = λ v. elim v [ str t ↦ ok t | _ ↦ err type_error ];
}

abbrev pub no_clients : Gateway
no_clients = record {
  clients = [];
  rpc = [];
  commands = [];
  frames = [];
  publish_attempts = 0;
  send_attempts = 0;
}

abbrev happenings : List Happening
happenings =
    connects "1234" 1
    ∷ receives "1234" 1 (call_frame "7" "Heartbeat" end)
    ∷ connects "1234" 2
    ∷ disconnects "1234"
    ∷ receives "1234" 2 (call_frame "8" "Heartbeat" end)
    ∷ delivers (
        obj (
          field "id" (str "1234")
            (field "message" (arr (cons (number 3) (cons (str "8") nil))) end)))
    ∷ []

nothing-InStep : InStep no_clients
unfolding find_client
nothing-InStep = (tt, λ k c found. ground (arith, found))

serve-InStep_example : InStep (serve ⦃r = quiet⦄ happenings no_clients)
serve-InStep_example = serve-InStep ⦃r = quiet⦄ happenings no_clients (λ n. refl) nothing-InStep
