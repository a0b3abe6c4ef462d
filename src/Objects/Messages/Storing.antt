-- ===== src/Objects/Messages/Storing.antt =====
-- Message.objects.create of be/ocpp/models/message.py, with the receivers of be/ocpp/receivers.
use levity.Prelude.{String, ◌≡◌, refl, false, [], ◌∷◌, ◌++◌, any, Bool-cases, inl, inr}
use levity.Models.Rows.{Message, clash}
use levity.Models.World.{World, done, created, modify, pure, ◌>>=◌}
use levity.Objects.Messages.{create_message, insert_message}
use levity.Platform.{Platform}
use levity.Receivers.{post_save_message, count_messages, log_messages, is_counted}
use levity.Services.CallHandler.Order.{to_ocpp-total}
use levity.Types.Error.{ok}
use levity.Value.{Value}

module _ ⦃p : Platform⦄ where
  -- The message is stored, and of the tables and the messages sent nothing else changes.
  abbrev pub Stores : Message → World → World → Type 0
  Stores row v w =
      (w.messages ≡ v.messages ++ row ∷ [])
      × (w.transactions ≡ v.transactions)
      × (w.meter_values ≡ v.meter_values)
      × (w.sent ≡ v.sent)

  pub create_message-Stores :
      (m : Message) (key : String) (stored : Value) (v : World)
      → p.char_field 128 m.unique_id ≡ ok key
      → p.json_field m.content ≡ ok stored
      → any (clash (record m { unique_key = key; content = stored })) v.messages ≡ false
      → (w : World) × (create_message m v
          ≡ done (record m { id = p.message_table.next v.messages; unique_key = key }) w)
        × Stores
            (record m { id = p.message_table.next v.messages; unique_key = key; content = stored })
            v
            w
  unfolding create_message insert_message created post_save_message count_messages log_messages
      modify pure ◌>>=◌
  create_message-Stores m key stored v keyed storable fresh =
      let made =
        p.message_table.create_lem (record m { unique_key = key; content = stored }) v.messages in
      let (frame, sent) =
        to_ocpp-total (record m { id = p.message_table.next v.messages; unique_key = key }) in
      elim (Bool-cases (is_counted m.actor m.message_type m.action)) [
        | inl c ↦ elim (Bool-cases p.has_fluentd) [
          | inl e ↦
              rw (keyed, storable, made, fresh, c, e, sent) (_, refl, (refl, refl, refl, refl))
          | inr e ↦ rw (keyed, storable, made, fresh, c, e) (_, refl, (refl, refl, refl, refl))
        ]
        | inr c ↦ elim (Bool-cases p.has_fluentd) [
          | inl e ↦
              rw (keyed, storable, made, fresh, c, e, sent) (_, refl, (refl, refl, refl, refl))
          | inr e ↦ rw (keyed, storable, made, fresh, c, e) (_, refl, (refl, refl, refl, refl))
        ]
      ]
