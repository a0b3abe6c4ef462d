-- ===== src/Gateway/Sessions/Telling.antt =====
-- What each task of ws/src/levity_ws/server.py publishes for its socket.
use levity.Prelude.{
  String, ◌≡◌, refl, sym, subst, Option, none, some, List, [], ◌∷◌, ◌⊎◌, inl, inr, All,
}
use levity.Gateway.Sessions.Branches.{
  accepted-branches, leave-branches, handled-branches, got-branches,
}
use levity.Gateway.Sessions.{
  Stage, accepting, replacing, announcing, idle, restoring, restored, passing, leaving, parting,
  closed, crashed, IsOutside, in_accepting, in_replacing, in_announcing, in_leaving, in_parting,
  IsInside, in_idle, in_restoring, in_passing, Visit, After, start_client, leave, put_envelope,
  end_of, handled, Acts, accepts, replaces, announces, gets, restores, goes_on, passes, hangs_up,
  leaves, parts, ends, breaks, Tasks, Replaced, at_head, further, new_visit, Moves, acts, opens,
  then_delivers, consumes, Runs, at_once, then_moves,
}
use levity.Gateway.State.{Envelope, Gateway, Runtime, put_client}
use levity.Types.Action.{WebsocketEventType, connect, disconnect, receive}
use levity.Types.Error.{Error}
use levity.Value.{Value}

abbrev pub said : WebsocketEventType → String → Option Value → Envelope
said type id message = record { type = type; id = id; message = message }

-- The envelopes of a socket that is connected, and the frames that they pass on; all hold the newest
-- first. A connect comes before the first frame, and may come again before any other.
pub data Spoken (id : String) : List Envelope → List Value → Type 0 where
  greeting : Spoken id (said connect id none ∷ []) []
  again :
      {es : List Envelope} {ms : List Value}
      → Spoken id es ms
      → Spoken id (said connect id none ∷ es) ms
  frame :
      (m : Value) {es : List Envelope} {ms : List Value}
      → Spoken id es ms
      → Spoken id (said receive id (some m) ∷ es) (m ∷ ms)

-- All of the frames were passed on, or all but the last.
abbrev pub Partly : String → List Envelope → List Value → Type 0
Partly id es received =
    (ms : List Value) × Spoken id es ms × ((received ≡ ms) ⊎ ((m : Value) × (received ≡ m ∷ ms)))

abbrev pub AllBut : Value → String → List Envelope → List Value → Type 0
AllBut m id es received = (ms : List Value) × Spoken id es ms × (received ≡ m ∷ ms)

abbrev pub Silent : List Envelope → List Value → Type 0
Silent es received = (es ≡ []) × (received ≡ [])

-- Before its end, by whether an exception ends it.
abbrev pub Leaving : Option Error → String → List Envelope → List Value → Type 0
Leaving none id es received = Spoken id es received
Leaving (some e) id es received = Partly id es received

abbrev Disconnected :
    (String → List Envelope → List Value → Type 0) → String → List Envelope → List Value → Type 0
Disconnected P id es received =
    (before : List Envelope) × (es ≡ said disconnect id none ∷ before) × P id before received

-- What a task has published and received, by where it is.
abbrev pub Fits : Stage → String → List Envelope → List Value → Type 0
Fits accepting id es received = Silent es received
Fits (replacing c) id es received = Silent es received
Fits announcing id es received = Silent es received
Fits idle id es received = Spoken id es received
Fits (restoring m) id es received = AllBut m id es received
Fits (restored m) id es received = AllBut m id es received
Fits (passing m) id es received = AllBut m id es received
Fits (leaving c o) id es received = Leaving o id es received
Fits (parting o) id es received = Leaving o id es received
Fits closed id es received = Disconnected Spoken id es received
Fits (crashed e) id es received =
    Silent es received ⊎ (Partly id es received ⊎ Disconnected Partly id es received)

abbrev pub IsTold : Visit → Type 0
IsTold s = Fits s.stage s.id s.published s.received

module _ (id : String) (es : List Envelope) (rs : List Value) where
  Spoken-Partly : Spoken id es rs → Partly id es rs
  Spoken-Partly spoken = (rs, spoken, inl refl)

  AllBut-Partly : (m : Value) → AllBut m id es rs → Partly id es rs
  AllBut-Partly m (ms, spoken, last) = (ms, spoken, inr (m, last))

  Leaving-Partly : (o : Option Error) → Leaving o id es rs → Partly id es rs
  Leaving-Partly none spoken = Spoken-Partly spoken
  Leaving-Partly (some e) partly = partly

  inside-Partly : {p : Stage} → IsInside p → Fits p id es rs → Partly id es rs
  inside-Partly in_idle spoken = Spoken-Partly spoken
  inside-Partly (in_restoring m) most = AllBut-Partly m most
  inside-Partly (in_passing m) most = AllBut-Partly m most

  outside-crashed :
      {p : Stage} (e : Error) → IsOutside p → Fits p id es rs → Fits (crashed e) id es rs
  outside-crashed e in_accepting silent = inl silent
  outside-crashed e (in_replacing c) silent = inl silent
  outside-crashed e in_announcing silent = inl silent
  outside-crashed e (in_leaving c o) left = inr (inl (Leaving-Partly o left))
  outside-crashed e (in_parting o) left = inr (inl (Leaving-Partly o left))

  greeting-Spoken : es ≡ [] → rs ≡ [] → Spoken id (said connect id none ∷ es) rs
  greeting-Spoken quiet no_frame = rw (quiet, no_frame) greeting

  frame-Spoken : (m : Value) → AllBut m id es rs → Spoken id (said receive id (some m) ∷ es) rs
  frame-Spoken m (ms, spoken, last) =
      subst (Spoken id (said receive id (some m) ∷ es)) (sym last) (frame m spoken)

  parted-Fits :
      (o : Option Error) → Leaving o id es rs → Fits (end_of o) id (said disconnect id none ∷ es) rs
  unfolding end_of
  parted-Fits none spoken = (es, refl, spoken)
  parted-Fits (some e) partly = inr (inr (es, refl, partly))

abbrev Stays : After → Type 0
Stays o = IsTold o.1

leave-IsTold :
    (o : Option Error) (g : Gateway) (s : Visit)
    → Leaving o s.id s.published s.received
    → IsTold (leave o g s).1
leave-IsTold o g s left =
    leave-branches Stays o g s (inr (inl (Leaving-Partly s.id s.published s.received o left)))
      (λ c. left)

module _ ⦃r : Runtime⦄ where
  handled-IsTold :
      (m : Value) (g : Gateway) (s : Visit)
      → AllBut m s.id s.published s.received
      → IsTold (handled m g s).1
  handled-IsTold m g s most =
      let partly = AllBut-Partly s.id s.published s.received m most in
      handled-branches Stays m g s (λ e. leave-IsTold (some e) g s partly)
        (λ e c. leave-IsTold (some e) (put_client s.id c g) s partly) (λ c. most)

  -- What its stage says of a task.
  at : (s : Visit) (q : Stage) → s.stage ≡ q → IsTold s → Fits q s.id s.published s.received
  at s q same told = subst (λ q. Fits q s.id s.published s.received) same told

  Acts-IsTold : {g : Gateway} {s : Visit} {o : After} → Acts g s o → IsTold s → IsTold o.1
  unfolding start_client put_envelope
  Acts-IsTold {g = g} {s = s} (accepts p) told =
      accepted-branches Stays g s (at s accepting p told) (λ c. at s accepting p told)
  Acts-IsTold {s = s} (replaces c p) told = at s (replacing c) p told
  Acts-IsTold {s = s} (announces p) told =
      let (quiet, no_frame) = at s announcing p told in
      greeting-Spoken s.id s.published s.received quiet no_frame
  Acts-IsTold {g = g} {s = s} (gets m p) told =
      let most : AllBut m s.id s.published (m ∷ s.received) =
        (s.received, at s idle p told, refl) in
      got-branches Stays m g s most
        (handled-IsTold m g (record s { received = m ∷ s.received }) most)
  Acts-IsTold {s = s} (restores m p) told =
      let (ms, spoken, last) = at s (restoring m) p told in (ms, again spoken, last)
  Acts-IsTold {g = g} {s = s} (goes_on m p) told = handled-IsTold m g s (at s (restored m) p told)
  Acts-IsTold {s = s} (passes m p) told =
      frame-Spoken s.id s.published s.received m (at s (passing m) p told)
  Acts-IsTold {g = g} {s = s} (hangs_up p) told = leave-IsTold none g s (at s idle p told)
  Acts-IsTold {s = s} (leaves c o p) told = at s (leaving c o) p told
  Acts-IsTold {s = s} (parts o p) told =
      parted-Fits s.id s.published s.received o (at s (parting o) p told)
  Acts-IsTold {s = s} (ends e p) told = outside-crashed s.id s.published s.received e p told
  Acts-IsTold {g = g} {s = s} (breaks e p) told =
      leave-IsTold (some e) g s (inside-Partly s.id s.published s.received p told)

  Replaced-IsTold :
      {s t : Visit} {ss ts : List Visit}
      → Replaced s t ss ts
      → (IsTold s → IsTold t)
      → All IsTold ss
      → All IsTold ts
  Replaced-IsTold {ss = []} x keeps all = elim x [ ]
  Replaced-IsTold {ss = s ∷ ss} at_head keeps all = (keeps all.0, all.1)
  Replaced-IsTold {ss = s ∷ ss} (further x) keeps all = (all.0, Replaced-IsTold x keeps all.1)

  Moves-IsTold : {v w : Tasks} → Moves v w → All IsTold v.visits → All IsTold w.visits
  unfolding new_visit
  Moves-IsTold (acts a x) all = Replaced-IsTold x (Acts-IsTold a) all
  Moves-IsTold (opens k id) all = ((refl, refl), all)
  Moves-IsTold (consumes id c c' fs cs found same) all = all

-- Whatever the tasks of the sockets, the deliveries and the consumers do, in any interleaving and with
-- any exceptions, from a server without sockets, every task keeps to its protocol: it publishes
-- nothing before its connect, then a receive for each frame that it got, in their order, and the
-- disconnect last; where it waits for a frame or has ended without an exception, all of its frames were
-- passed on, and at any other stage all but at most the last.
pub Runs-IsTold :
    ⦃r : Runtime⦄ (g : Gateway) (v : Tasks)
    → Runs (record { hub = g; visits = [] }) v
    → All IsTold v.visits
Runs-IsTold g v at_once = tt
Runs-IsTold g v (then_moves before m) = Moves-IsTold m (Runs-IsTold g _ before)
Runs-IsTold g v (then_delivers d before) = Runs-IsTold g _ before
