-- ===== src/Tests/Ending.antt =====
-- How the process of the websocket server ends.
use levity.Prelude.{◌≤◌, ◌⊎◌, ◌≡◌, refl, true, false, [], ◌∷◌}
use levity.Dict.{first, subscript}
use levity.Gateway.Client.{new_client, type_of, send_message, send_by_type, enqueue_command}
use levity.Gateway.Process.Broken.{Lost, undeclared-Lost}
use levity.Gateway.Process.Stopping.{IsOver, loop_steps, signalled-IsOver}
use levity.Gateway.Process.Ends.{launched-Signalled}
use levity.Gateway.Process.{
  Loops, between, gathering, exited, aborted, connected_to, channel_opened, limited, send_declared,
  receive_declared, holding, over, broken, Process, finish_delivery, take_delivery, starts, stops,
  takes, loops, handles_exit, served, loop_raises, ends, starts_up, runs, Reaches, already,
  then_steps, launched,
}
use levity.Gateway.Server.{rpc_receive, deliver_to}
use levity.Gateway.State.{find_client, after, and_then}
use levity.Tests.Samples.{call_frame}
use levity.Tests.Sockets.{quiet, no_clients}
use levity.Types.Error.{ok, attribute_error}
use levity.Types.MessageType.{parse_message_type}
use levity.Value.{Value, str, obj, field, end}

-- A server that a signal ends before anything else has happened.
abbrev stopped : Process
stopped = record {
  phase = exited;
  tasks = record { hub = no_clients; visits = [] };
  loop = over;
  queue = [];
  shutdown = true;
  serving = false;
}

-- The signal has come, and the loop has yet to see it.
abbrev signalled : Process
signalled = record stopped { phase = gathering; loop = between; serving = true }

signalled_run : Reaches ⦃r = quiet⦄ (launched no_clients) signalled
unfolding launched
signalled_run =
    then_steps
      (then_steps
        (then_steps
          (then_steps
            (then_steps
              (then_steps (then_steps already (starts_up connected_to)) (starts_up channel_opened))
              (starts_up limited))
            (starts_up send_declared))
          (starts_up receive_declared))
        (runs refl handles_exit))
      (runs refl (loops (starts refl)))

seen : Reaches ⦃r = quiet⦄ signalled (record signalled { loop = over })
seen = then_steps already (runs refl (loops (stops refl refl)))

stopped_run : Reaches ⦃r = quiet⦄ (launched no_clients) stopped
stopped_run =
    then_steps
      (then_steps (then_steps signalled_run (runs refl (loops (stops refl refl))))
        (runs refl served))
      (runs refl (ends refl refl))

launched-Signalled_example : stopped.shutdown ≡ true
launched-Signalled_example = launched-Signalled ⦃r = quiet⦄ no_clients stopped stopped_run refl

abbrev command : Value
command = call_frame "9" "Reset" end

abbrev delivery : Value
delivery = obj (field "id" (str "1234") (field "message" command end))

-- The charge point has just connected, and a command comes for it.
abbrev too_early : Process
too_early = record {
  phase = gathering;
  tasks = record { hub = record no_clients { clients = ("1234", new_client 1) ∷ [] }; visits = [] };
  loop = holding (ok delivery) [];
  queue = ok delivery ∷ [];
  shutdown = false;
  serving = true;
}

abbrev loop_has_raised : Process
loop_has_raised = record too_early { loop = broken attribute_error }

abbrev server_is_gone : Process
server_is_gone = record loop_has_raised { phase = aborted attribute_error }

undeclared-Lost_example : Lost attribute_error (ok delivery ∷ []) server_is_gone
unfolding find_client new_client type_of first parse_message_type subscript take_delivery
    finish_delivery rpc_receive deliver_to send_message send_by_type enqueue_command after and_then
undeclared-Lost_example =
    undeclared-Lost ⦃r = quiet⦄ delivery command [] "1234" (new_client 1) too_early loop_has_raised
      server_is_gone refl refl refl refl refl refl refl (takes (ok delivery) [] refl)
      (then_steps already (runs refl (loop_raises attribute_error refl)))

signalled-IsOver_example :
    (loop_steps ⦃r = quiet⦄ seen ≤ 6)
    × (IsOver over ⊎ ((s : Process) × Loops ⦃r = quiet⦄ (record signalled { loop = over }) s))
signalled-IsOver_example =
    signalled-IsOver ⦃r = quiet⦄ no_clients signalled (record signalled { loop = over })
      signalled_run refl seen
