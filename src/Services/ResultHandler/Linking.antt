-- ===== src/Services/ResultHandler/Linking.antt =====
-- ChargePointCallResultHandler of be/ocpp/services/charge_point_message_handler.py: a result and the
-- call that it answers.
use levity.Prelude.{
  ◌≡◌, ◌≢◌, refl, sym, ap, ◌∙◌, Bool, true, List, [], ◌∷◌, some, map, In, here, there, keep, All,
  ◌==◌, Bool-cases, inl, inr, if◌then◌else◌, arith, eq_iff,
}
use mathlib.Core.Bool.{false≢true}
use levity.Models.Rows.{Message}
use levity.Models.World.{World, done, reads, lift, pure, ◌>>=◌}
use levity.Objects.Messages.{save_fields, write_message}
use levity.Platform.{Platform}
use levity.Platform.Tables.{the_only}
use levity.Receivers.{post_save_message, count_messages, log_messages}
use levity.Services.ResultHandler.{is_call_of, handle_call_result}
use levity.Services.ResultHandler.Originating.{
  Unique, All-keep, keep-All, Unique-keep, others, two_calls_clash, centrals,
}
use levity.Types.Action.{charge_point, central_system}
use levity.Types.Error.{ok}
use levity.Types.MessageType.{call, call_result, same_message_type}

In-keep :
    (q : Message → Bool) (n : Message) (rows : List Message)
    → In n rows
    → q n ≡ true
    → In n (keep q rows)
In-keep q n (r ∷ rows) (here e) t = let t' : q r ≡ true = ap q (sym e) ∙ t in rw t' (here e)
In-keep q n (r ∷ rows) (there i) t = elim (Bool-cases (q r)) [
  | inl e ↦ rw e (there (In-keep q n rows i t))
  | inr e ↦ rw e (In-keep q n rows i t)
]
In-keep q n [] i t = elim i [ ]

is_call_of_lem :
    (m n : Message) → n.message_type ≡ call → n.unique_key ≡ m.unique_key → is_call_of m n ≡ true
unfolding is_call_of same_message_type
is_call_of_lem m n is_call key = ground (arith, eq_iff n.unique_key m.unique_key)

-- The one row of a list that has it.
the_only_lem :
    (m n : Message) (rows : List Message)
    → Unique rows
    → All (λ r. is_call_of m r ≡ true) rows
    → All (λ r. r.actor ≡ central_system) rows
    → In n rows
    → the_only rows ≡ ok n
the_only_lem m n [] u calls central i = elim i [ ]
the_only_lem m n (r ∷ []) u calls central (here e) = ap ok (sym e)
the_only_lem m n (r ∷ []) u calls central (there i) = elim i [ ]
the_only_lem m n (r ∷ s ∷ rs) u calls central i =
    absurd (false≢true (sym u.0.0 ∙ two_calls_clash m r s calls.0 calls.1.0 central.0 central.1.0))

-- The rows once the two are linked.
abbrev pub linked : Message → Message → Message → Message
linked m n r =
    if r.id == n.id
    then record r { reply = some m.id }
    else if r.id == m.id
    then record r { action = n.action }
    else r

map-linked :
    (m n : Message) (rows : List Message)
    → m.id ≢ n.id
    → map
        (λ r. if r.id == m.id then record r { action = n.action } else r)
        (map (λ r. if r.id == n.id then record r { reply = some m.id } else r) rows)
      ≡ map (linked m n) rows
map-linked m n [] apart = refl
map-linked m n (r ∷ rows) apart = ground (arith, map-linked m n rows apart)

module _ ⦃p : Platform⦄ where
  save_fields_lem :
      (m : Message) (f : Message → Message) (w : World)
      → save_fields m f w
        ≡ done (f m) (record w { messages = map (λ r. if r.id == m.id then f r else r) w.messages })
  unfolding save_fields write_message post_save_message count_messages log_messages pure ◌>>=◌
  save_fields_lem m f w = elim (Bool-cases p.has_fluentd) [
    | inl e ↦ rw (e, p.message_table.save_lem m.id f w.messages) refl
    | inr e ↦ rw (e, p.message_table.save_lem m.id f w.messages) refl
  ]

  -- In a message table that meets the unique constraint: when a stored result of a charge point has
  -- the id of a stored call of the central system, and the two have different keys, the handling of
  -- the result returns; then the row of the call has the result as its reply, the row of the result has
  -- the action of the call, every other message is as it was, and so is all else.
  pub handle_call_result-Links :
      (m n : Message) (w : World)
      → Unique w.messages
      → m.id ≢ n.id
      → In m w.messages
      → In n w.messages
      → m.actor ≡ charge_point
      → m.message_type ≡ call_result
      → n.actor ≡ central_system
      → n.message_type ≡ call
      → n.unique_key ≡ m.unique_key
      → handle_call_result m w ≡ done tt (record w { messages = map (linked m n) w.messages })
  unfolding handle_call_result reads lift pure ◌>>=◌
  handle_call_result-Links m n w u apart i j from is_result central is_call key =
      let rows = w.messages in
      let asked = is_call_of_lem m n is_call key in
      let calls = keep-All (is_call_of m) rows in
      let away = All-keep _ (is_call_of m) rows (others m rows u i) in
      let found : p.message_table.get (is_call_of m) rows ≡ ok n =
        p.message_table.get_lem (is_call_of m) rows
        ∙ the_only_lem m n (keep (is_call_of m) rows) (Unique-keep (is_call_of m) rows u) calls
            (centrals m (keep (is_call_of m) rows) from is_result away calls)
            (In-keep (is_call_of m) n rows j asked) in
      let replied : World = record w {
        messages = map (λ r. if r.id == n.id then record r { reply = some m.id } else r) rows;
      } in
      rw
        (
          found,
          save_fields_lem n (λ r. record r { reply = some m.id }) w,
          save_fields_lem m (λ r. record r { action = n.action }) replied,
        )
        (ap (λ ms. done tt (record w { messages = ms })) (map-linked m n rows apart))
