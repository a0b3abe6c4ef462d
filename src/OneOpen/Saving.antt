-- ===== src/OneOpen/Saving.antt =====
-- Message.save and the receivers of be/ocpp/receivers on the way of a StartTransaction to its answer.
use levity.Prelude.{
  ℕ, String, ◌≡◌, refl, ap, ◌∙◌, true, false, List, [], ◌∷◌, any, map, In, Bool-cases, inl, inr,
  if◌then◌else◌, ◌==◌,
}
use levity.Logic.Total.{Total, Total-bind}
use levity.Models.Rows.{Transaction, Message, clash, is_open_for}
use levity.Models.World.{World, pure, modify, ◌>>=◌}
use levity.Objects.Messages.{save_fields, write_message}
use levity.Platform.{Platform}
use levity.Receivers.{post_save_message, count_messages, log_messages, is_counted}
use levity.Services.CallHandler.Order.{to_ocpp-total}
use levity.Types.Action.{central_system}
use levity.OneOpen.Opening.{Holds}

module _ ⦃p : Platform⦄ where
  -- The row stays in the table, and it is open.
  abbrev pub Stays : String → Transaction → World → Type 0
  Stays cp t w = In t w.transactions × (is_open_for cp t ≡ true)

  module _ (answer : Message) where
    any-clash-save :
        (k : ℕ) (f : Message → Message) (rows : List Message)
        → ((m : Message) → clash answer (f m) ≡ clash answer m)
        → any (clash answer) (map (λ r. if r.id == k then f r else r) rows)
          ≡ any (clash answer) rows
    any-clash-save k f [] same = refl
    any-clash-save k f (r ∷ rows) same =
        let rest = any-clash-save k f rows same in
        elim (Bool-cases (r.id == k)) [
          | inl here_ ↦ rw (here_, same r, rest) refl
          | inr elsewhere ↦ rw (elsewhere, rest) refl
        ]

    post_save-Total :
        (P : World → Type 0) (m : Message) → Total P (λ u. P) (post_save_message m false)
    unfolding post_save_message count_messages log_messages ◌>>=◌
    post_save-Total P m = record {
      at = λ w h. elim (Bool-cases p.has_fluentd) [ inl e ↦ rw e h | inr e ↦ rw e h ];
    }

    module _ (cp : String) (t : Transaction) where
      abbrev Held : World → Type 0
      Held = Holds answer cp t

      pub save_fields-Total :
          (m : Message) (f : Message → Message)
          → ((n : Message) → clash answer (f n) ≡ clash answer n)
          → Total Held (λ n w. (n ≡ f m) × Held w) (save_fields m f)
      unfolding save_fields write_message pure
      save_fields-Total m f same =
          Total-bind (λ u. Held) (λ n w. (n ≡ f m) × Held w) (write_message m.id f) _
            (record {
              at = λ w h.
                  let saved =
                    ap (any (clash answer)) (p.message_table.save_lem m.id f w.messages)
                    ∙ any-clash-save m.id f w.messages same in
                  (h.0, h.1, (h.2.0, saved ∙ h.2.1));
            })
            (λ u.
              Total-bind (λ v. Held) (λ n w. (n ≡ f m) × Held w) (post_save_message (f m) false) _
                (post_save-Total Held (f m)) (λ v. record { at = λ w h. (refl, h) }))

      abbrev Kept : World → Type 0
      Kept = Stays cp t

      log_messages-Total : (m : Message) → Total Kept (λ u. Kept) (log_messages m true)
      unfolding log_messages modify pure ◌>>=◌
      log_messages-Total m =
          let (v, made) = to_ocpp-total m in
          record {
            at = λ w h. elim (Bool-cases p.has_fluentd) [ inl e ↦ rw (e, made) h | inr e ↦ rw e h ];
          }

      pub post_save_answer-Total :
          (m : Message)
          → m.actor ≡ central_system
          → Total Kept (λ u. Kept) (post_save_message m true)
      unfolding post_save_message count_messages is_counted pure
      post_save_answer-Total m central =
          Total-bind (λ u. Kept) (λ u. Kept) (count_messages m true) _
            (record { at = λ w h. rw central h }) (λ u. log_messages-Total m)
