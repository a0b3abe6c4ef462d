-- ===== src/Gateway/Process.antt =====
-- `main_async` of ws/src/levity_ws/main.py: the start, and then uvicorn's server beside the loop of
-- ws/src/levity_ws/rpc.py inside the iterator of ws/src/levity_ws/cancellable_iterator.py. `gather`
-- waits for both, and raises what the first of them raises.
pub mod Ends
pub mod Stopping
pub mod Broken
pub mod Interleaved
use levity.Prelude.{ℕ, ◌≡◌, Bool, true, false, List, [], ◌∷◌, ◌++◌}
use levity.Gateway.Commands.{Woken, message, cancelled, IsDone}
use levity.Gateway.Server.{rpc_receive}
use levity.Gateway.Sessions.{Tasks, Moves}
use levity.Gateway.State.{Gateway, Runtime, Ending, returned, failed}
use levity.Types.Error.{Error, Result, ok, err}
use levity.Value.{Value}

-- Where main_async awaits: the connection, its channel, `set_qos`, the two queues, and `gather`.
pub data MainPoint : Type 0 where
  connecting : MainPoint
  opening_channel : MainPoint
  limiting : MainPoint
  declaring_send : MainPoint
  declaring_receive : MainPoint
  gathering : MainPoint
  exited : MainPoint
  aborted : Error → MainPoint

-- The next of the awaits before `gather`.
pub data Next : MainPoint → MainPoint → Type 0 where
  connected_to : Next connecting opening_channel
  channel_opened : Next opening_channel limiting
  limited : Next limiting declaring_send
  send_declared : Next declaring_send declaring_receive
  receive_declared : Next declaring_receive gathering

-- Where rpc_recv_queue_consumer stands. What is left of `done` goes along, since the body of the loop
-- runs inside the iterator's loop over it.
pub data LoopPoint : Type 0 where
  starting : LoopPoint
  between : LoopPoint
  sleeping : LoopPoint
  awake : List Woken → LoopPoint
  holding : Result Value → List Woken → LoopPoint
  over : LoopPoint
  broken : Error → LoopPoint

-- `queue` is rpc_recv_queue, each message by what `json.loads` makes of its body; `shutdown` the event
-- that handle_exit sets; `serving` whether `server.serve()` has yet to return.
pub record Process : Type 0 where
  pub phase : MainPoint
  pub tasks : Tasks
  pub loop : LoopPoint
  pub queue : List (Result Value)
  pub shutdown : Bool
  pub serving : Bool

-- The end of a delivery, in the loop.
unfoldable pub finish_delivery : List Woken → Process → Ending → Process
finish_delivery ds p (returned g) = record p {
  loop = awake ds;
  tasks = record (p.tasks) { hub = g };
}
finish_delivery ds p (failed e g) = record p {
  loop = broken e;
  tasks = record (p.tasks) { hub = g };
}

module _ ⦃r : Runtime⦄ where
  -- The body of the loop.
  unfoldable pub take_delivery : Result Value → List Woken → Process → Process
  take_delivery (err e) ds p = record p { loop = broken e }
  take_delivery (ok decoded) ds p = finish_delivery ds p (rpc_receive decoded p.tasks.hub)

  -- A step of the loop; `fails` is an exception of the queue's iterator.
  pub data Loops (p : Process) : Process → Type 0 where
    starts : p.loop ≡ starting → Loops p (record p { loop = between })
    stops : p.loop ≡ between → p.shutdown ≡ true → Loops p (record p { loop = over })
    sleeps : p.loop ≡ between → p.shutdown ≡ false → Loops p (record p { loop = sleeping })
    wakes :
        (done : List Woken) (rest : List (Result Value))
        → p.loop ≡ sleeping
        → IsDone p.queue p.shutdown 1 done rest
        → Loops p (record p { loop = awake done; queue = rest })
    yields :
        (b : Result Value) (ds : List Woken)
        → p.loop ≡ awake (message b ∷ ds)
        → Loops p (record p { loop = holding b ds })
    cancels :
        (ds : List Woken) → p.loop ≡ awake (cancelled ∷ ds) → Loops p (record p { loop = awake ds })
    checks : p.loop ≡ awake [] → Loops p (record p { loop = between })
    takes :
        (b : Result Value) (ds : List Woken)
        → p.loop ≡ holding b ds
        → Loops p (take_delivery b ds p)
    fails_to_start : (e : Error) → p.loop ≡ starting → Loops p (record p { loop = broken e })
    fails : (e : Error) → p.loop ≡ sleeping → Loops p (record p { loop = broken e })

  -- A step while `gather` waits: of the loop, of the sockets' tasks, of another process that publishes,
  -- or a signal; and the ends of `serve` and of `gather`.
  pub data Gathers (p : Process) : Process → Type 0 where
    loops : {q : Process} → Loops p q → Gathers p q
    moves : {v : Tasks} → Moves p.tasks v → Gathers p (record p { tasks = v })
    publishes : (b : Result Value) → Gathers p (record p { queue = p.queue ++ b ∷ [] })
    handles_exit : Gathers p (record p { shutdown = true })
    served : Gathers p (record p { serving = false })
    serve_raises : (e : Error) → p.serving ≡ true → Gathers p (record p { phase = aborted e })
    loop_raises : (e : Error) → p.loop ≡ broken e → Gathers p (record p { phase = aborted e })
    ends : p.loop ≡ over → p.serving ≡ false → Gathers p (record p { phase = exited })

  pub data Steps (p : Process) : Process → Type 0 where
    starts_up : {ph : MainPoint} → Next p.phase ph → Steps p (record p { phase = ph })
    refused :
        {ph : MainPoint} (e : Error) → Next p.phase ph → Steps p (record p { phase = aborted e })
    runs : {q : Process} → p.phase ≡ gathering → Gathers p q → Steps p q

  pub data Reaches (p : Process) : Process → Type 0 where
    already : Reaches p p
    then_steps : {q s : Process} → Reaches p q → Steps q s → Reaches p s

-- `asyncio.run(main_async())`, where ctx is what server.py and cp.py share.
unfoldable pub launched : Gateway → Process
launched g = record {
  phase = connecting;
  tasks = record { hub = g; visits = [] };
  loop = starting;
  queue = [];
  shutdown = false;
  serving = true;
}
