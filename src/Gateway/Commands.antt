-- ===== src/Gateway/Commands.antt =====
-- `consume_command_queue` of ws/src/levity_ws/cp.py with the iterator of
-- ws/src/levity_ws/cancellable_iterator.py, as a task among others: between two of its steps anything
-- else may happen to the events, the queue, the clients and the replies.
pub mod Weights
pub mod Ending
pub mod Protocol
pub mod Replies
use levity.Prelude.{
  ℕ, suc, ◌+◌, ◌≤◌, ◌<◌, String, ◌≡◌, ◌≢◌, Bool, true, false, ◌&&◌, ◌||◌, not, Option, none, some,
  List, [], ◌∷◌, ◌++◌, str_eq, keep, any, length, if◌then◌else◌,
}
use levity.Dict.{first}
use levity.Gateway.Client.{second, take_reply}
use levity.Gateway.State.{Client, Runtime}
use levity.Types.Error.{Error, Result, ok, err}
use levity.Value.{Value}

-- A task of `done`: the next message, by what `json.loads` makes of its body, or a cancellation.
pub data Woken : Type 0 where
  message : Result Value → Woken
  cancelled : Woken

-- Where the task stands. What is left of `done` goes along, since the body of the loop runs inside
-- the iterator's loop over it.
pub data Place : Type 0 where
  -- `declare_queue`, `declare_exchange` and `bind`
  declaring declaring_exchange binding : Place
  outer : Place
  iterating : Place
  asleep : Place
  woken : List Woken → Place
  taken : Result Value → List Woken → Place
  sending : String → Value → List Woken → Place
  awaiting_reply : String → List Woken → Place
  ended : Place
  crashed : Error → Place

-- The task with what it shares: the two events, whether the charge point is in `ctx.clients`, the
-- messages of the command queue, whether `wait_for_reply` is set, and the frames that were sent, the
-- newest first.
pub record Consumer : Type 0 where
  pub client : Client
  pub place : Place
  pub shutdown : Bool
  pub disconnected : Bool
  pub registered : Bool
  pub queue : List (Result Value)
  pub replied : Bool
  pub frames : List Value
  pub send_attempts : ℕ

-- `any([event.is_set() for event in …])`
abbrev pub is_stopped : Consumer → Bool
is_stopped s = s.shutdown || s.disconnected

abbrev pub messages : List Woken → List (Result Value)
messages [] = []
messages (message b ∷ ds) = b ∷ messages ds
messages (cancelled ∷ ds) = messages ds

abbrev pub cancellations : List Woken → ℕ
cancellations [] = 0
cancellations (message b ∷ ds) = cancellations ds
cancellations (cancelled ∷ ds) = suc (cancellations ds)

-- What `asyncio.wait` may return, in any order: at least one task, at most the next message and the
-- waits for the events, and those only once an event is set.
pub record IsDone (queue : List (Result Value)) (stopped : Bool) (events : ℕ) (done : List Woken)
    (rest : List (Result Value)) : Type 0 where
  pub some_done : done ≢ []
  pub one_message : length (messages done) ≤ 1
  pub at_most_events : cancellations done ≤ events
  pub events_set : 0 < cancellations done → stopped ≡ true
  pub next_message : queue ≡ messages done ++ rest

abbrev pub is_key : String → Place → Bool
is_key k (sending j command ds) = str_eq j k
is_key k (awaiting_reply j ds) = str_eq j k
is_key k place = false

module _ ⦃r : Runtime⦄ where
  -- The id of a command as a key, after the log line has read the first two entries.
  abbrev pub key_of : Value → Result String
  key_of command = elim (first command) [
    | err e ↦ err e
    | ok t ↦ elim (second command) [ err e ↦ err e | ok i ↦ r.hash_key i ]
  ]

  -- `self._awaiting_replies[command_id] = wait_for_reply`
  unfoldable pub register_command : Value → List Woken → Consumer → Consumer
  register_command command ds s = elim (key_of command) [
    | err e ↦ record s { place = crashed e }
    | ok k ↦ record s {
      place = sending k command ds;
      replied = false;
      client = record (s.client) {
        awaiting_replies = k ∷ keep (λ j. not (str_eq j k)) s.client.awaiting_replies;
      };
    }
  ]

  -- The body of the loop, up to the sending.
  unfoldable pub take_command : Result Value → List Woken → Consumer → Consumer
  unfolding register_command
  take_command (err e) ds s = record s { place = crashed e }
  take_command (ok command) ds s =
      if s.registered then register_command command ds s else record s { place = woken ds }

  unfoldable pub send_command : String → Value → List Woken → Consumer → Consumer
  send_command k command ds s =
      let s' = record s { send_attempts = s.send_attempts + 1 } in
      elim (r.send_error s.send_attempts) [
        | some e ↦ record s' { place = crashed e }
        | none ↦ record s' { place = awaiting_reply k ds; frames = command ∷ s'.frames }
      ]

-- Where the task awaits the broker: the three calls above, the entering and the leaving of the queue's
-- iterator, its next message, and the acknowledgement of one.
pub data IsBroker : Place → Type 0 where
  in_declaring : IsBroker declaring
  in_declaring_exchange : IsBroker declaring_exchange
  in_binding : IsBroker binding
  in_outer : IsBroker outer
  in_iterating : IsBroker iterating
  in_asleep : IsBroker asleep
  in_taken : (b : Result Value) (ds : List Woken) → IsBroker (taken b ds)

-- A step of the task itself; `fails` is an exception of the broker.
pub data Own ⦃r : Runtime⦄ : Consumer → Consumer → Type 0 where
  queue_declared :
      (s : Consumer) → s.place ≡ declaring → Own s (record s { place = declaring_exchange })
  exchange_declared :
      (s : Consumer)
      → s.place ≡ declaring_exchange
      → Own s (record s { place = binding; client = record (s.client) { has_exchange = true } })
  bound : (s : Consumer) → s.place ≡ binding → Own s (record s { place = outer })
  leaves :
      (s : Consumer) → s.place ≡ outer → is_stopped s ≡ true → Own s (record s { place = ended })
  enters :
      (s : Consumer)
      → s.place ≡ outer
      → is_stopped s ≡ false
      → Own s (record s { place = iterating })
  stops :
      (s : Consumer)
      → s.place ≡ iterating
      → is_stopped s ≡ true
      → Own s (record s { place = outer })
  sleeps :
      (s : Consumer)
      → s.place ≡ iterating
      → is_stopped s ≡ false
      → Own s (record s { place = asleep })
  wakes :
      (s : Consumer) (done : List Woken) (rest : List (Result Value))
      → s.place ≡ asleep
      → IsDone s.queue (is_stopped s) 2 done rest
      → Own s (record s { place = woken done; queue = rest })
  fails : (s : Consumer) (e : Error) → IsBroker s.place → Own s (record s { place = crashed e })
  yields :
      (s : Consumer) (b : Result Value) (ds : List Woken)
      → s.place ≡ woken (message b ∷ ds)
      → Own s (record s { place = taken b ds })
  cancels :
      (s : Consumer) (ds : List Woken)
      → s.place ≡ woken (cancelled ∷ ds)
      → Own s (record s { place = woken ds })
  checks : (s : Consumer) → s.place ≡ woken [] → Own s (record s { place = iterating })
  takes :
      (s : Consumer) (b : Result Value) (ds : List Woken)
      → s.place ≡ taken b ds
      → Own s (take_command b ds s)
  sends :
      (s : Consumer) (k : String) (command : Value) (ds : List Woken)
      → s.place ≡ sending k command ds
      → Own s (send_command k command ds s)
  hears :
      (s : Consumer) (k : String) (ds : List Woken)
      → s.place ≡ awaiting_reply k ds
      → s.replied ≡ true
      → Own s (record s { place = woken ds })
  times_out :
      (s : Consumer) (k : String) (ds : List Woken)
      → s.place ≡ awaiting_reply k ds
      → Own s (record s { place = woken ds })
  breaks :
      (s : Consumer) (k : String) (ds : List Woken)
      → s.place ≡ awaiting_reply k ds
      → is_stopped s ≡ true
      → Own s (record s { place = woken ds })

-- A step of another task: an event is set, a command is published, the clients change, or a reply
-- comes, for which `handle_message_from_charge_point` sets the event of its key if there is one.
pub data Other : Consumer → Consumer → Type 0 where
  shuts : (s : Consumer) → Other s (record s { shutdown = true })
  disconnects : (s : Consumer) → Other s (record s { disconnected = true })
  publishes : (s : Consumer) (b : Result Value) → Other s (record s { queue = s.queue ++ b ∷ [] })
  registers : (s : Consumer) (here : Bool) → Other s (record s { registered = here })
  replies :
      (s : Consumer) (k : String)
      → any (λ j. str_eq j k) s.client.awaiting_replies ≡ true
      → Other s
          (record s { client = take_reply s.client k; replied = s.replied || is_key k s.place })
  ignores :
      (s : Consumer) (k : String)
      → any (λ j. str_eq j k) s.client.awaiting_replies ≡ false
      → Other s s

-- Any interleaving, with the number of the task's own steps.
pub data Interleaving ⦃r : Runtime⦄ : ℕ → Consumer → Consumer → Type 0 where
  here : (s : Consumer) → Interleaving 0 s s
  own : {n : ℕ} {s t u : Consumer} → Interleaving n s t → Own t u → Interleaving (suc n) s u
  other : {n : ℕ} {s t u : Consumer} → Interleaving n s t → Other t u → Interleaving n s u
