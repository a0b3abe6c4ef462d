-- ===== src/Gateway/Commands/Protocol.antt =====
-- The promise of ws/src/levity_ws/cp.py: commands are sent serially, with a wait after each.
use levity.Prelude.{ℕ, ◌≡◌, String, List, [], ◌∷◌, ◌++◌}
use levity.Gateway.Commands.{
  Place, sending, awaiting_reply, ended, crashed, Consumer, key_of, Own, hears, times_out, breaks,
  Interleaving, here, own, other,
}
use levity.Gateway.State.{Runtime}
use levity.Types.Error.{ok}
use levity.Value.{Value}

-- What a sender of commands is about: nothing, a command that it is going to send, the wait for the
-- reply to the last one, or nothing ever again.
pub data Phase : Type 0 where
  idle : Phase
  opened : String → Value → Phase
  outstanding : String → Phase
  over : Phase

-- How the wait for the reply to a command ended: the reply came, the time was up, or the task was told
-- to stop.
pub data WaitEnd : Type 0 where
  heard timed_out told_to_stop : String → WaitEnd

pub data IsEndOf (k : String) : WaitEnd → Type 0 where
  by_reply : IsEndOf k (heard k)
  by_time : IsEndOf k (timed_out k)
  by_stop : IsEndOf k (told_to_stop k)

-- A sender that is serial, with the frames that it has sent and how its waits have ended, the newest
-- first.
pub data Serial ⦃r : Runtime⦄
    : Phase → List Value → List WaitEnd → Phase → List Value → List WaitEnd → Type 0 where
  begins :
      (k : String) (c : Value) (fs : List Value) (ws : List WaitEnd)
      → key_of c ≡ ok k
      → Serial idle fs ws (opened k c) fs ws
  sends_frame :
      (k : String) (c : Value) (fs : List Value) (ws : List WaitEnd)
      → Serial (opened k c) fs ws (outstanding k) (c ∷ fs) ws
  waits_no_more :
      (k : String) (fs : List Value) (ws : List WaitEnd) (w : WaitEnd)
      → IsEndOf k w
      → Serial (outstanding k) fs ws idle fs (w ∷ ws)
  gives_up : (p : Phase) (fs : List Value) (ws : List WaitEnd) → Serial p fs ws over fs ws

-- Any number of its steps, from no frame and no wait.
pub data SerialRun ⦃r : Runtime⦄ (p : Phase) (fs : List Value)
    : Phase → List Value → List WaitEnd → Type 0 where
  so_far : SerialRun p fs p fs []
  more :
      {q o : Phase} {gs hs : List Value} {vs ws : List WaitEnd}
      → SerialRun p fs q gs vs
      → Serial q gs vs o hs ws
      → SerialRun p fs o hs ws

module _ ⦃r : Runtime⦄ where
  -- The wait that a step of the task ends, and those that a run of it has ended, the newest first.
  abbrev pub ended_by : {s t : Consumer} → Own s t → List WaitEnd
  ended_by (hears s k ds at_p h) = heard k ∷ []
  ended_by (times_out s k ds at_p) = timed_out k ∷ []
  ended_by (breaks s k ds at_p stop) = told_to_stop k ∷ []
  ended_by _ = []

  abbrev pub ended_in : {n : ℕ} {s t : Consumer} → Interleaving n s t → List WaitEnd
  ended_in (here s) = []
  ended_in (own p o) = ended_by o ++ ended_in p
  ended_in (other p o) = ended_in p

abbrev pub phase_of : Place → Phase
phase_of (sending k c ds) = opened k c
phase_of (awaiting_reply k ds) = outstanding k
phase_of ended = over
phase_of (crashed e) = over
phase_of place = idle

module _ ⦃r : Runtime⦄ where
  -- One step of the code, in which these waits end, is one step of the sender or none.
  AtMostOneStep : Consumer → Consumer → List WaitEnd → Type 0
  AtMostOneStep s t now =
      (p : Phase) (fs : List Value) (ws : List WaitEnd)
      → SerialRun p fs (phase_of s.place) s.frames ws
      → SerialRun p fs (phase_of t.place) t.frames (now ++ ws)
