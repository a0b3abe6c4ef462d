-- ===== src/Gateway/Ordered/Sending.antt =====
-- What ws/src/levity_ws/cp.py sends for the deliveries of ws/src/levity_ws/rpc.py.
use levity.Prelude.{ℕ, String, List, Bool-cases, Option-cases, inl, inr}
use levity.Gateway.Client.{send_message, send_by_type, send_json, enqueue_command, second, type_of}
use levity.Gateway.Server.{deliver_to, rpc_receive}
use levity.Gateway.State.{
  Client, Envelope, Gateway, Runtime, Ending, returned, failed, state_of, after, and_then,
  find_client,
}
use levity.Types.Error.{Result, ok, err}
use levity.Types.MessageType.{MessageType, call, call_result}
use levity.Value.{Value, null, bool, num, str, arr, obj, enum_member, datetime}

-- They change no client and publish nothing for the backend, so that any property of these two stays.
module _ ⦃r : Runtime⦄ (P : List (String × Client) → List Envelope → Type 0) where
  abbrev Holds : Gateway → Type 0
  Holds g = P g.clients g.rpc

  pub and_then-Keeps :
      (o : Ending) (k : Gateway → Ending)
      → Holds (state_of o)
      → ((g : Gateway) → Holds g → Holds (state_of (k g)))
      → Holds (state_of (and_then o k))
  unfolding and_then
  and_then-Keeps (returned g) k good next = next g good
  and_then-Keeps (failed e g) k good next = good

  after-Keeps :
      {A : Type 0} (o : Result A) (g : Gateway) (k : A → Ending)
      → Holds g
      → ((a : A) → Holds (state_of (k a)))
      → Holds (state_of (after o g k))
  unfolding after
  after-Keeps (ok a) g k good next = next a
  after-Keeps (err e) g k good next = good

  send_json-Keeps : (s : ℕ) (m : Value) (g : Gateway) → Holds g → Holds (state_of (send_json s m g))
  unfolding send_json
  send_json-Keeps s m g good = elim (Option-cases (r.send_error g.send_attempts)) [
    | inl fine ↦ rw (fine, state_of) good
    | inr (e, broken) ↦ rw (broken, state_of) good
  ]

  enqueue_command-Keeps :
      (id : String) (c : Client) (m : Value) (g : Gateway)
      → Holds g
      → Holds (state_of (enqueue_command id c m g))
  unfolding enqueue_command
  enqueue_command-Keeps id c m g good = elim (Bool-cases c.has_exchange) [
    | inl ready ↦ elim (Option-cases (r.publish_error g.publish_attempts)) [
      | inl fine ↦ rw (ready, fine, state_of) good
      | inr (e, broken) ↦ rw (ready, broken, state_of) good
    ]
    | inr unready ↦ rw (unready, state_of) good
  ]

  send_by_type-Keeps :
      (t : MessageType) (id : String) (c : Client) (m : Value) (g : Gateway)
      → Holds g
      → Holds (state_of (send_by_type t id c m g))
  unfolding send_by_type
  send_by_type-Keeps call_result id c m g good =
      after-Keeps (second m) g _ good (λ u. send_json-Keeps c.websocket m g good)
  send_by_type-Keeps call id c m g good =
      and_then-Keeps (enqueue_command id c m g) _ (enqueue_command-Keeps id c m g good)
        (λ g' good'. after-Keeps (second m) g' _ good' (λ u. good'))

  deliver_to-Keeps : (v m : Value) (g : Gateway) → Holds g → Holds (state_of (deliver_to v m g))
  unfolding deliver_to send_message
  deliver_to-Keeps (str id) m g good = elim (Option-cases (find_client id g.clients)) [
    | inl missing ↦ rw (missing, state_of) good
    | inr (c, found) ↦
        rw (found, state_of)
          (after-Keeps (type_of m) g _ good (λ t. send_by_type-Keeps t id c m g good))
  ]
  deliver_to-Keeps null m g good = after-Keeps _ g _ good (λ k. good)
  deliver_to-Keeps (bool b) m g good = after-Keeps _ g _ good (λ k. good)
  deliver_to-Keeps (num n d) m g good = after-Keeps _ g _ good (λ k. good)
  deliver_to-Keeps (arr xs) m g good = after-Keeps _ g _ good (λ k. good)
  deliver_to-Keeps (obj fs) m g good = after-Keeps _ g _ good (λ k. good)
  deliver_to-Keeps (enum_member w) m g good = after-Keeps _ g _ good (λ k. good)
  deliver_to-Keeps (datetime t) m g good = after-Keeps _ g _ good (λ k. good)

  pub rpc_receive-Keeps : (d : Value) (g : Gateway) → Holds g → Holds (state_of (rpc_receive d g))
  unfolding rpc_receive
  rpc_receive-Keeps d g good =
      after-Keeps _ g _ good (λ id. after-Keeps _ g _ good (λ m. deliver_to-Keeps id m g good))
