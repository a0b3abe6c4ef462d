-- ===== src/Gateway/Commands/Replies.antt =====
-- The replies that the task of ws/src/levity_ws/cp.py waits for.
use levity.Prelude.{
  ℕ, ◌≡◌, refl, sym, subst, ap, ◌∙◌, ◌⊎◌, String, Bool, true, false, ◌||◌, not, List, [], ◌∷◌, inl,
  inr, Bool-cases, Option-cases, if◌then◌else◌, any, keep, str_eq, eq_iff, eq_refl, arith,
}
use levity.Gateway.Client.{take_reply}
use levity.Gateway.Commands.{
  Woken, Place, declaring, declaring_exchange, binding, outer, iterating, asleep, woken, taken,
  sending, awaiting_reply, ended, crashed, Consumer, key_of, is_key, register_command, take_command,
  send_command, Own, queue_declared, exchange_declared, bound, leaves, enters, stops, sleeps, wakes,
  fails, yields, cancels, checks, takes, sends, hears, times_out, breaks, Other, shuts, disconnects,
  publishes, registers, replies, ignores, Interleaving, here, own, other,
}
use levity.Gateway.State.{Runtime}
use levity.Types.Error.{Result, ok, err}
use levity.Value.{Value}

-- The reply that is waited for has come, or its key is among those that a reply is taken for.
abbrev pub Awaits : Consumer → Type 0
Awaits s =
    (k : String)
    → is_key k s.place ≡ true
    → (s.replied ≡ true) ⊎ (any (λ j. str_eq j k) s.client.awaiting_replies ≡ true)

-- The places between the sending of a command and the end of the wait for its reply.
pub data Expects (k : String) : Place → Type 0 where
  while_sending : (c : Value) (ds : List Woken) → Expects k (sending k c ds)
  while_waiting : (ds : List Woken) → Expects k (awaiting_reply k ds)

any-keep_other :
    (j k : String) (ks : List String)
    → str_eq j k ≡ false
    → any (λ i. str_eq i k) (keep (λ i. not (str_eq i j)) ks) ≡ any (λ i. str_eq i k) ks
any-keep_other j k [] other_key = refl
any-keep_other j k (i ∷ ks) other_key =
    ground (arith, any-keep_other j k ks other_key, eq_iff i j, eq_iff i k, eq_iff j k)

module _ ⦃r : Runtime⦄ where
  register_command-Awaits :
      (c : Value) (ds : List Woken) (s : Consumer) (k : Result String)
      → key_of c ≡ k
      → Awaits (register_command c ds s)
  unfolding register_command
  register_command-Awaits c ds s (ok k) e =
      rw (e, register_command) (λ j h. inr (ground (arith, h)))
  register_command-Awaits c ds s (err x) e = rw (e, register_command) (λ j q. cc)

  take_command-Awaits :
      (b : Result Value) (ds : List Woken) (s : Consumer) → Awaits (take_command b ds s)
  unfolding take_command
  take_command-Awaits (err e) ds s = λ j q. cc
  take_command-Awaits (ok c) ds s =
      let choice : Bool → Consumer =
        λ b. if b then register_command c ds s else record s { place = woken ds } in
      elim (Bool-cases s.registered) [
        | inl known ↦
            subst (λ b. Awaits (choice b)) (sym known) (register_command-Awaits c ds s _ refl)
        | inr unknown ↦ subst (λ b. Awaits (choice b)) (sym unknown) (λ j q. cc)
      ]

  send_command-Awaits :
      (k : String) (c : Value) (ds : List Woken) (s : Consumer)
      → s.place ≡ sending k c ds
      → Awaits s
      → Awaits (send_command k c ds s)
  unfolding send_command
  send_command-Awaits k c ds s at_k h = elim (Option-cases (r.send_error s.send_attempts)) [
    | inl fine ↦ rw (fine, send_command) (λ j e. h j (ap (is_key j) at_k ∙ e))
    | inr (e, broken) ↦ rw (broken, send_command) (λ j q. cc)
  ]

  Own-Awaits : {s t : Consumer} → Own s t → Awaits s → Awaits t
  Own-Awaits (queue_declared s at_p) h = λ j q. cc
  Own-Awaits (exchange_declared s at_p) h = λ j q. cc
  Own-Awaits (bound s at_p) h = λ j q. cc
  Own-Awaits (leaves s at_p stop) h = λ j q. cc
  Own-Awaits (enters s at_p go) h = λ j q. cc
  Own-Awaits (stops s at_p stop) h = λ j q. cc
  Own-Awaits (sleeps s at_p go) h = λ j q. cc
  Own-Awaits (wakes s ds rest at_p d) h = λ j q. cc
  Own-Awaits (fails s e at_p) h = λ j q. cc
  Own-Awaits (yields s b ds at_p) h = λ j q. cc
  Own-Awaits (cancels s ds at_p) h = λ j q. cc
  Own-Awaits (checks s at_p) h = λ j q. cc
  Own-Awaits (takes s b ds at_p) h = take_command-Awaits b ds s
  Own-Awaits (sends s k c ds at_p) h = send_command-Awaits k c ds s at_p h
  Own-Awaits (hears s k ds at_p heard) h = λ j q. cc
  Own-Awaits (times_out s k ds at_p) h = λ j q. cc
  Own-Awaits (breaks s k ds at_p stop) h = λ j q. cc

  is_key-eq :
      (p : Place) (j k : String) → is_key j p ≡ true → is_key k p ≡ false → str_eq j k ≡ false
  is_key-eq (sending i c ds) j k a b = ground (arith, eq_iff i j, eq_iff i k, eq_iff j k)
  is_key-eq (awaiting_reply i ds) j k a b = ground (arith, eq_iff i j, eq_iff i k, eq_iff j k)
  is_key-eq declaring j k a b = cc
  is_key-eq declaring_exchange j k a b = cc
  is_key-eq binding j k a b = cc
  is_key-eq outer j k a b = cc
  is_key-eq iterating j k a b = cc
  is_key-eq asleep j k a b = cc
  is_key-eq (woken ds) j k a b = cc
  is_key-eq (taken c ds) j k a b = cc
  is_key-eq ended j k a b = cc
  is_key-eq (crashed e) j k a b = cc

  reply-Awaits :
      (s : Consumer) (k j : String)
      → is_key j s.place ≡ true
      → Awaits s
      → ((s.replied || is_key k s.place) ≡ true)
        ⊎ (any (λ i. str_eq i j) (take_reply s.client k).awaiting_replies ≡ true)
  unfolding take_reply
  reply-Awaits s k j e h = elim (Bool-cases (is_key k s.place)) [
    | inl same ↦ inl (ground (arith, same))
    | inr other_key ↦ elim (h j e) [
      | inl replied ↦ inl (ground (arith, replied))
      | inr awaited ↦ inr (
          ground (
            arith,
            awaited,
            any-keep_other k j s.client.awaiting_replies,
            is_key-eq s.place j k e other_key,
            eq_iff k j,
            eq_iff j k,
          ))
    ]
  ]

  Other-Awaits : {s t : Consumer} → Other s t → Awaits s → Awaits t
  Other-Awaits (shuts s) h = h
  Other-Awaits (disconnects s) h = h
  Other-Awaits (publishes s b) h = h
  Other-Awaits (registers s known) h = h
  Other-Awaits (ignores s k unknown) h = h
  Other-Awaits (replies s k awaited) h = λ j e. reply-Awaits s k j e h

  Interleaving-Awaits : {n : ℕ} {s t : Consumer} → Interleaving n s t → Awaits s → Awaits t
  Interleaving-Awaits (here s) h = h
  Interleaving-Awaits (own p o) h = Own-Awaits o (Interleaving-Awaits p h)
  Interleaving-Awaits (other p o) h = Other-Awaits o (Interleaving-Awaits p h)

  Expects-is_key : (k : String) (p : Place) → Expects k p → is_key k p ≡ true
  Expects-is_key k _ (while_sending c ds) = eq_refl k
  Expects-is_key k _ (while_waiting ds) = eq_refl k

  -- From its start, in any interleaving: from when the task sends a command until it waits no more for
  -- the reply to it, its event is set, or the next reply with the command's id sets it. So no reply
  -- is dropped as unexpected, also one that comes while the frame is being sent.
  pub awaiting-replied :
      {n : ℕ} (s t : Consumer) (k : String)
      → s.place ≡ declaring
      → Interleaving n s t
      → Expects k t.place
      → (t.replied ≡ true)
        ⊎ ((u : Consumer) × Other t u
            × (u.client ≡ take_reply t.client k)
            × (u.place ≡ t.place)
            × (u.replied ≡ true))
  awaiting-replied s t k start p expects =
      let first_place : Awaits s = λ j e. let f = ap (is_key j) (sym start) ∙ e in cc in
      let is_waited = Expects-is_key k t.place expects in
      elim (Interleaving-Awaits p first_place k is_waited) [
        | inl replied ↦ inl replied
        | inr awaited ↦ inr (_, replies t k awaited, refl, refl, ground (arith, is_waited))
      ]
