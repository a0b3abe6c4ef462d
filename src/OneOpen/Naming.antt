-- ===== src/OneOpen/Naming.antt =====
-- `transaction_from_data` of be/ocpp/models/message.py: the transaction that a payload names.
use levity.Prelude.{
  ℤ, ◌≡◌, refl, ap, sym, ◌∙◌, Bool, true, false, some, List, if◌then◌else◌, is_none,
}
use levity.Dict.{subscript}
use levity.Logic.Leaves.{post_save_message-Keeps}
use levity.Logic.Triple.{Ends, Triple, Triple-bind, Triple-step}
use levity.Models.Rows.{Transaction, Message}
use levity.Models.World.{World, Exec, Outcome, done, raised, pure, lift, reads, ◌>>=◌}
use levity.Objects.Messages.{
  transaction_from_data, link_transaction, has_id, save_fields, write_message,
}
use levity.Receivers.{post_save_message}
use levity.OneOpen.Starting.{transactions-Leaves}
use levity.Platform.{Platform}
use levity.Types.Error.{Result, ok, err}
use levity.Value.{Value}

module _ ⦃p : Platform⦄ where
  -- The transaction that the payload names, among the rows.
  abbrev pub IsNamed : Value → List Transaction → Transaction → Type 0
  IsNamed content rows t =
      (v : Value) × (id : ℤ) × (subscript content "transactionId" ≡ ok v)
      × (p.integer_field v ≡ ok id)
      × (p.transaction_table.get (has_id id) rows ≡ ok t)

  abbrev pub Anything : World → Type 0
  Anything w = Unit

  -- The rest may use that `r` did not raise.
  pub lift-Triple :
      {A B : Type 0} (P : World → Type 0) (S : B → World → Type 0) (r : Result A) (f : A → Exec B)
      → ((a : A) → r ≡ ok a → Triple P S Anything (f a))
      → Triple P S Anything (lift r >>= f)
  unfolding ◌>>=◌
  lift-Triple P S (ok a) f t = record { at = (t a refl).at }
  lift-Triple P S (err e) f t = record { at = λ w h. tt }

  module _ (rows : List Transaction) where
    abbrev pub Same : World → Type 0
    Same w = w.transactions ≡ rows

    looked_up :
        {B : Type 0} (S : B → World → Type 0) (id : ℤ) (f : Transaction → Exec B)
        → ((t : Transaction)
            → p.transaction_table.get (has_id id) rows ≡ ok t
            → Triple Same S Anything (f t))
        → Triple Same S Anything
            (reads (λ w. lift (p.transaction_table.get (has_id id) w.transactions)) >>= f)
    unfolding ◌>>=◌
    looked_up S id f t = record {
      at = λ w h.
          (lift-Triple Same S (p.transaction_table.get (has_id id) w.transactions) f
              (λ a e. t a (ap (p.transaction_table.get (has_id id)) (sym h) ∙ e))).at
            w h;
    }

    saved-Triple :
        (m : Message) (f : Message → Message)
        → Triple Same (λ n w. (n ≡ f m) × Same w) Anything (save_fields m f)
    unfolding save_fields write_message pure
    saved-Triple m f =
        let instance leaves = transactions-Leaves (λ rs. rs ≡ rows) in
        Triple-step _ (write_message m.id f) _ (record { at = λ w h. h }) (λ w h. tt)
          (λ u.
            Triple-step _ (post_save_message (f m) false) _ (post_save_message-Keeps (f m) false)
              (λ w h. tt) (λ v. record { at = λ w h. (refl, h) }))

    linking-Triple :
        (m : Message) (t : Transaction) (b : Bool)
        → Triple Same
            (λ n w. (n.content ≡ m.content) × Same w)
            Anything
            (if b then save_fields m (λ row. record row { transaction = some t.id }) else pure m)
    unfolding pure
    linking-Triple m t true = record {
      at = λ w h. content_of (save_fields m linked w) ((saved-Triple m linked).at w h);
    }
      where
        linked : Message → Message
        linked = λ row. record row { transaction = some t.id }

        content_of :
            (o : Outcome Message)
            → Ends (λ n w. (n ≡ linked m) × Same w) Anything o
            → Ends (λ n w. (n.content ≡ m.content) × Same w) Anything o
        content_of (done n w) h = (ap (λ (x : Message). x.content) h.0, h.1)
        content_of (raised e w) h = h
    linking-Triple m t false = record { at = λ w h. (refl, h) }

    linked-Triple :
        (m : Message) (t : Transaction)
        → Triple Same (λ n w. (n.content ≡ m.content) × Same w) Anything (link_transaction m t.id)
    unfolding link_transaction
    linked-Triple m t = linking-Triple m t (is_none m.transaction)

    pub transaction_from_data-Triple :
        (m : Message)
        → Triple Same
            (λ mt w. (mt.0.content ≡ m.content) × IsNamed m.content rows mt.1 × Same w)
            Anything
            (transaction_from_data m)
    unfolding transaction_from_data pure
    transaction_from_data-Triple m =
        lift-Triple Same _ (subscript m.content "transactionId") _ (λ given has_it.
          lift-Triple Same _ (p.integer_field given) _ (λ id fits. looked_up _ id _ (λ t found.
            Triple-bind (λ n w. (n.content ≡ m.content) × Same w) _ (link_transaction m t.id) _
              (linked-Triple m t)
              (λ n. record { at = λ w h. (h.0, (given, id, has_it, fits, found), h.1) }))))
