-- ===== src/Services/CallHandler/Order.antt =====
-- What `ChargePointCallHandler.handle` of be/ocpp/services/charge_point_message_handler.py sends
-- after its chain.
use mathlib.Core.List.{append-nil, append_assoc}
use levity.Types.PublishRun.{sent_off}
use levity.Prelude.{
  ℕ, String, ◌≡◌, refl, ap, sym, ◌∙◌, false, List, [], ◌∷◌, ◌++◌, All, map, Bool-cases, inl, inr,
  some, arith,
}
use levity.Models.Exchange.{OcppResponse}
use levity.Models.Rows.{ChargePoint, Message}
use levity.Models.World.{Exec, World, done, lift, ◌>>=◌}
use levity.Objects.Messages.{save_fields, save_message, write_message}
use levity.Objects.Messages.Frames.{ocpp_message-ReadsBack}
use levity.Platform.{Platform}
use levity.Publisher.{publish, send_message_to_charge_point}
use levity.Publisher.Delivery.{publish-delivered}
use levity.Receivers.{post_save_message, count_messages, log_messages}
use levity.Serialization.{json_encode}
use levity.Services.CallHandler.{send_side_effects, deliver}
use levity.Types.Error.{Result, ok, err}
use levity.Value.{Value, null}
use levity.Wire.{to_ocpp, envelope}

-- A call that returns from this state, having sent these in this order.
abbrev pub Sends : {A : Type 0} → Exec A → World → List (String × Value) → Type 0
Sends {A = A} m w posts = (a : A) × (w' : World) × (m w ≡ done a w') × (w'.sent ≡ w.sent ++ posts)

Sends-bind :
    {A B : Type 0} (m : Exec A) (f : A → Exec B) (w : World) (xs ys : List (String × Value))
    → Sends m w xs
    → ((a : A) (v : World) → Sends (f a) v ys)
    → Sends (m >>= f) w (xs ++ ys)
unfolding ◌>>=◌
Sends-bind m f w xs ys (a, v, ran, sent) rest =
    let (b, u, ran', sent') = rest a v in
    (b, u, rw ran ran', sent' ∙ ap (λ s. s ++ ys) sent ∙ append_assoc w.sent xs ys)

-- The frame that goes out for a message.
abbrev pub or_null : Result Value → Value
or_null (ok v) = v
or_null (err e) = null

module _ ⦃p : Platform⦄ where
  -- What the broker is given for messages, in their order.
  abbrev pub posts : ChargePoint → List Message → List (String × Value)
  posts cp ms = map (λ m. (cp.ws_queue, json_encode (or_null (to_ocpp m)))) ms

  post_save-Sends : (m : Message) (w : World) → Sends (post_save_message m false) w []
  unfolding post_save_message count_messages log_messages ◌>>=◌
  post_save-Sends m w = elim (Bool-cases p.has_fluentd) [
    | inl e ↦ rw e (tt, w, refl, sym (append-nil w.sent))
    | inr e ↦ rw e (tt, w, refl, sym (append-nil w.sent))
  ]

  save_fields-Sends :
      (m : Message) (f : Message → Message) (w : World) → Sends (save_fields m f) w []
  unfolding save_fields write_message ◌>>=◌
  save_fields-Sends m f w =
      Sends-bind (write_message m.id f) _ w [] [] (tt, _, refl, sym (append-nil _))
        (λ u v.
          Sends-bind (post_save_message (f m) false) _ v [] [] (post_save-Sends (f m) v)
            (λ u' v'. (f m, v', refl, sym (append-nil _))))

  save_message-Sends :
      (m : Message) (s : Value) (w : World)
      → p.json_field m.content ≡ ok s
      → Sends (save_message m) w []
  unfolding save_message write_message ◌>>=◌
  save_message-Sends m s w plain =
      Sends-bind (lift (p.json_field m.content)) _ w [] [] (s, w, rw plain refl, sym (append-nil _))
        (λ t v.
          Sends-bind (write_message m.id (λ row. record m { content = t })) _ v [] []
            (tt, _, refl, sym (append-nil _)) (λ u v'. post_save-Sends m v'))

  pub to_ocpp-total : (m : Message) → (v : Value) × (to_ocpp m ≡ ok v)
  unfolding to_ocpp
  to_ocpp-total m = let (frame, made, reads) = ocpp_message-ReadsBack m in (_, ap (envelope m) made)

  publish-Sends :
      (queue : String) (v : Value) (w : World)
      → ((n : ℕ) → p.publish_run n ≡ sent_off)
      → Sends (publish queue v) w ((queue, json_encode v) ∷ [])
  publish-Sends queue v w up = (
    tt,
    _,
    publish-delivered queue v w 0 (omega arith) (λ j h. absurd (omega arith)) (up _),
    refl,
  )

  send-Sends :
      (cp : ChargePoint) (m : Message) (w : World)
      → ((n : ℕ) → p.publish_run n ≡ sent_off)
      → Sends (send_message_to_charge_point cp m) w (posts cp (m ∷ []))
  unfolding send_message_to_charge_point ◌>>=◌
  send-Sends cp m w up =
      let (v, made) = to_ocpp-total m in rw made (publish-Sends cp.ws_queue v w up)

  -- What the columns store for the contents.
  abbrev pub Stored : List Message → Type 0
  Stored ms = All (λ m. (s : Value) × (p.json_field m.content ≡ ok s)) ms

  send_side_effects-Sends :
      (cp : ChargePoint) (ms : List Message) (w : World)
      → ((n : ℕ) → p.publish_run n ≡ sent_off)
      → Stored ms
      → Sends (send_side_effects cp ms) w (posts cp ms)
  unfolding send_side_effects ◌>>=◌
  send_side_effects-Sends cp [] w up stored = (tt, w, refl, sym (append-nil _))
  send_side_effects-Sends cp (m ∷ ms) w up stored =
      Sends-bind (save_message m) _ w [] (posts cp (m ∷ ms))
        (save_message-Sends m stored.0.0 w stored.0.1)
        (λ u v.
          Sends-bind (send_message_to_charge_point cp m) _ v (posts cp (m ∷ [])) (posts cp ms)
            (send-Sends cp m v up) (λ u' v'. send_side_effects-Sends cp ms v' up stored.1))

  -- The answer, as it is saved and sent.
  abbrev pub answer_of : OcppResponse → Message
  answer_of res = record (res.message) { content = json_encode res.message.content }

  -- While the broker takes what it is given and the contents can be stored, the delivery of a response
  -- returns, and has sent the answer first and after it the side effects in their order, each once and
  -- to the charge point's own queue.
  pub deliver-Sends :
      (cp : ChargePoint) (m : Message) (res : OcppResponse) (w : World)
      → ((n : ℕ) → p.publish_run n ≡ sent_off)
      → Stored (answer_of res ∷ res.side_effects)
      → Sends (deliver cp m res) w (posts cp (answer_of res ∷ res.side_effects))
  unfolding deliver
  deliver-Sends cp m res w up stored =
      let answer = answer_of res in
      let all = posts cp (answer ∷ res.side_effects) in
      Sends-bind (save_message answer) _ w [] all
        (save_message-Sends answer stored.0.0 w stored.0.1)
        (λ u v.
          Sends-bind (save_fields m (λ row. record row { reply = some answer.id })) _ v [] all
            (save_fields-Sends m _ v)
            (λ n v'.
              Sends-bind (send_message_to_charge_point cp answer) _ v' (posts cp (answer ∷ []))
                (posts cp res.side_effects) (send-Sends cp answer v' up)
                (λ u' v''. send_side_effects-Sends cp res.side_effects v'' up stored.1)))
