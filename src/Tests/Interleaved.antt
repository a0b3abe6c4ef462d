-- ===== src/Tests/Interleaved.antt =====
-- Two sockets whose tasks interleave.
use levity.Prelude.{◌≡◌, refl, true, false, none, some, [], ◌∷◌, All, In}
use levity.Gateway.Client.{new_client, handle_message, type_of, handle_reply, second}
use levity.Gateway.Ordered.{connected}
use levity.Gateway.Process.Interleaved.{launched-Preceded}
use levity.Gateway.Process.{
  gathering, connected_to, channel_opened, limited, send_declared, receive_declared, starting,
  Process, moves, starts_up, runs, Reaches, already, then_steps, launched,
}
use levity.Gateway.Sessions.Late.{Runs-late}
use levity.Gateway.Sessions.Merging.{told, Merged, Runs-Merged}
use levity.Gateway.Sessions.Preceding.{Preceded}
use levity.Gateway.Sessions.Telling.{said, IsTold, Runs-IsTold}
use levity.Gateway.Sessions.{
  idle, Visit, new_visit, accepted, start_client, put_envelope, got, handled, accepts, announces,
  gets, passes, Tasks, at_head, Moves, further, acts, opens, Runs, at_once, then_moves,
}
use levity.Dict.{first}
use levity.Gateway.Server.{log_params}
use levity.Gateway.State.{find_client, put_client}
use levity.Types.MessageType.{parse_message_type}
use levity.Tests.Samples.{call_frame}
use levity.Tests.Sockets.{quiet, no_clients}
use levity.Types.Action.{connect, receive}
use levity.Value.{Value, end}

abbrev heartbeat : Value
heartbeat = call_frame "7" "Heartbeat" end

abbrev at_start : Tasks
at_start = record { hub = no_clients; visits = [] }

abbrev talking : Visit
talking = record {
  websocket = 1;
  id = "1234";
  stage = idle;
  received = heartbeat ∷ [];
  published = said receive "1234" (some heartbeat) ∷ said connect "1234" none ∷ [];
}

abbrev waiting : Visit
waiting = record {
  websocket = 2;
  id = "5678";
  stage = idle;
  received = [];
  published = said connect "5678" none ∷ [];
}

abbrev two_sockets : Tasks
two_sockets = record {
  hub = record no_clients {
    clients = ("1234", new_client 1) ∷ ("5678", new_client 2) ∷ [];
    rpc =
        said receive "1234" (some heartbeat)
        ∷ said connect "1234" none
        ∷ said connect "5678" none
        ∷ [];
  };
  visits = waiting ∷ talking ∷ [];
}

-- Both open, and each step of one comes between steps of the other.
both_open :
    Runs ⦃r = quiet⦄ at_start
      (record { hub = no_clients; visits = new_visit 2 "5678" ∷ new_visit 1 "1234" ∷ [] })
both_open = then_moves (then_moves at_once (opens 1 "1234")) (opens 2 "5678")

two_sockets_run : Runs ⦃r = quiet⦄ at_start two_sockets
unfolding new_visit accepted start_client put_envelope got handled find_client put_client
    handle_message type_of first parse_message_type handle_reply log_params second
two_sockets_run =
    then_moves
      (then_moves
        (then_moves
          (then_moves
            (then_moves (then_moves both_open (acts (accepts refl) (further at_head)))
              (acts (accepts refl) at_head))
            (acts (announces refl) at_head))
          (acts (announces refl) (further at_head)))
        (acts (gets heartbeat refl) (further at_head)))
      (acts (passes heartbeat refl) (further at_head))

Runs-Merged_example : Merged (told two_sockets.visits) two_sockets.hub.rpc
Runs-Merged_example = Runs-Merged ⦃r = quiet⦄ no_clients two_sockets refl two_sockets_run

Runs-IsTold_example : All IsTold two_sockets.visits
Runs-IsTold_example = Runs-IsTold ⦃r = quiet⦄ no_clients two_sockets two_sockets_run

Runs-late_example :
    (v : Tasks) × (s : Visit) × Runs ⦃r = quiet⦄ at_start v
    × In s v.visits
    × (s.websocket ≡ 2)
    × (s.stage ≡ idle)
    × (find_client "1234" v.hub.clients ≡ some (new_client 2))
    × (connected "1234" v.hub.rpc ≡ false)
unfolding find_client
Runs-late_example = Runs-late ⦃r = quiet⦄ no_clients "1234" 1 2 refl

-- The same two sockets in the process of the server.
abbrev serving_both : Process
serving_both = record {
  phase = gathering;
  tasks = two_sockets;
  loop = starting;
  queue = [];
  shutdown = false;
  serving = true;
}

moved :
    {p : Process} (v : Tasks)
    → p.phase ≡ gathering
    → Reaches ⦃r = quiet⦄ (launched no_clients) p
    → Moves ⦃r = quiet⦄ p.tasks v
    → Reaches ⦃r = quiet⦄ (launched no_clients) (record p { tasks = v })
moved v gathers before m = then_steps before (runs gathers (moves m))

launched_run : Reaches ⦃r = quiet⦄ (launched no_clients) (record serving_both { tasks = at_start })
unfolding launched
launched_run =
    then_steps
      (then_steps
        (then_steps
          (then_steps (then_steps already (starts_up connected_to)) (starts_up channel_opened))
          (starts_up limited))
        (starts_up send_declared))
      (starts_up receive_declared)

serving_run : Reaches ⦃r = quiet⦄ (launched no_clients) serving_both
unfolding new_visit accepted start_client put_envelope got handled find_client put_client
    handle_message type_of first parse_message_type handle_reply log_params second
serving_run =
    moved two_sockets refl
      (moved _ refl
        (moved _ refl
          (moved _ refl
            (moved _ refl
              (moved _ refl
                (moved _ refl (moved _ refl launched_run (opens 1 "1234")) (opens 2 "5678"))
                (acts (accepts refl) (further at_head)))
              (acts (accepts refl) at_head))
            (acts (announces refl) at_head))
          (acts (announces refl) (further at_head)))
        (acts (gets heartbeat refl) (further at_head)))
      (acts (passes heartbeat refl) (further at_head))

launched-Preceded_example : Preceded two_sockets.hub.rpc
launched-Preceded_example = launched-Preceded ⦃r = quiet⦄ no_clients serving_both refl serving_run
