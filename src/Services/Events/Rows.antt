-- ===== src/Services/Events/Rows.antt =====
-- The charge points' table over ChargePoint.objects.update_or_create and save, as
-- be/ocpp/services/charge_point_service.py and websocket_event_handler.py call them.
use levity.Prelude.{
  String, Bool, true, false, ◌≡◌, refl, List, [], ◌∷◌, ◌++◌, map, any, keep, find, All, All-append,
  not, none, some, Option-cases, Bool-cases, inl, inr, str_eq, eq_iff, eq_refl, if◌then◌else◌,
  arith, ap, ◌∙◌, sym, keep-append, All-imp,
}
use mathlib.Core.List.{append-nil}
use levity.Models.Rows.{ChargePoint}
use levity.Objects.ChargePoints.{new_charge_point}
use levity.Platform.{Platform}

module _ (id : String) where
  -- The row of this charge point.
  abbrev pub is_it : ChargePoint → Bool
  is_it r = str_eq r.id id

  -- The rows of all others.
  abbrev pub others : List ChargePoint → List ChargePoint
  others rows = keep (λ r. not (is_it r)) rows

  -- It has a row, and its rows have `P`.
  abbrev pub Has : (ChargePoint → Type 0) → List ChargePoint → Type 0
  Has P rows = (any is_it rows ≡ true) × All (λ r. is_it r ≡ true → P r) rows

  module _ (f : ChargePoint → ChargePoint) (same : (r : ChargePoint) → (f r).id ≡ r.id) where
    abbrev pub save_it : List ChargePoint → List ChargePoint
    save_it rows = map (λ r. if str_eq r.id id then f r else r) rows

    pub any-save_it : (rows : List ChargePoint) → any is_it (save_it rows) ≡ any is_it rows
    any-save_it [] = refl
    any-save_it (r ∷ rows) = elim (Bool-cases (str_eq r.id id)) [
      | inl e ↦ rw (e, same r, e) refl
      | inr e ↦ rw (e, e, any-save_it rows) refl
    ]

    pub others-save_it : (rows : List ChargePoint) → others (save_it rows) ≡ others rows
    others-save_it [] = refl
    others-save_it (r ∷ rows) = elim (Bool-cases (str_eq r.id id)) [
      | inl e ↦ rw (e, same r, e) (others-save_it rows)
      | inr e ↦ rw (e, e, others-save_it rows) refl
    ]

    pub All-save_it :
        (P Q : ChargePoint → Type 0)
        → ((r : ChargePoint) → P r → Q (f r))
        → (rows : List ChargePoint) → All (λ r. is_it r ≡ true → P r) rows
        → All (λ r. is_it r ≡ true → Q r) (save_it rows)
    All-save_it P Q step [] h = tt
    All-save_it P Q step (r ∷ rows) h = elim (Bool-cases (str_eq r.id id)) [
      | inl e ↦ rw e ((λ i. step r (h.0 e)), All-save_it P Q step rows h.1)
      | inr e ↦ rw e ((λ i. absurd (cc)), All-save_it P Q step rows h.1)
    ]

  All-any_it : (rows : List ChargePoint) → All (λ r. is_it r ≡ true → Unit {0}) rows
  All-any_it [] = tt
  All-any_it (r ∷ rows) = ((λ i. tt), All-any_it rows)

  find-none : (rows : List ChargePoint) → find is_it rows ≡ none → All (λ r. is_it r ≡ false) rows
  find-none [] h = tt
  find-none (r ∷ rows) h = elim (Bool-cases (is_it r)) [
    | inl e ↦ absurd (ground (arith, h, e))
    | inr e ↦ (e, find-none rows (ground (arith, h, e)))
  ]

  find-some :
      (rows : List ChargePoint) (s : ChargePoint)
      → find is_it rows ≡ some s
      → (s.id ≡ id) × (any is_it rows ≡ true)
  find-some [] s h = absurd (cc)
  find-some (r ∷ rows) s h = elim (Bool-cases (is_it r)) [
    | inl e ↦
        let same : r ≡ s = ground (arith, h, e) in
        (ap (λ c. c.id) (sym same) ∙ (eq_iff r.id id).0 e, rw e refl)
    | inr e ↦
        let (found, is_there) = find-some rows s (ground (arith, h, e)) in
        (found, rw (e, is_there) refl)
  ]

  module _ (new : ChargePoint) (named : new.id ≡ id) (rows : List ChargePoint)
      (missing : All (λ r. is_it r ≡ false) rows) where
    pub others-new : others (rows ++ new ∷ []) ≡ others rows
    others-new =
        keep-append (λ r. not (is_it r)) rows (new ∷ []) ∙ rw (named, eq_refl id) (append-nil _)

    pub Has-new : (P : ChargePoint → Type 0) → P new → Has P (rows ++ new ∷ [])
    Has-new P h = (
      any_new rows,
      All-append (λ r. is_it r ≡ true → P r) rows (new ∷ [])
          (All-imp (λ r. is_it r ≡ false) (λ r. is_it r ≡ true → P r) rows
            (λ r no yes_. absurd (cc)) missing)
          ((λ i. h), tt),
    )
      where
        any_new : (qs : List ChargePoint) → any is_it (qs ++ new ∷ []) ≡ true
        any_new [] = rw (named, eq_refl id) refl
        any_new (q ∷ qs) = ground (arith, any_new qs)

  module _ ⦃p : Platform⦄ (queue : String) (rows : List ChargePoint) where
    abbrev pub put_queue : ChargePoint → ChargePoint
    put_queue r = record r { ws_queue = queue }

    -- The row that update_or_create returns, and the table.
    abbrev pub upserted : ChargePoint × List ChargePoint
    upserted = p.charge_point_table.update_or_create id put_queue (new_charge_point id queue) rows

    pub upserted_queue : upserted.0.ws_queue ≡ queue
    upserted_queue = elim (Option-cases (find is_it rows)) [
      | inl none_ ↦
          rw
            (p.charge_point_table.update_or_create_new id put_queue (new_charge_point id queue) rows
              none_)
            refl
      | inr (r, found) ↦
          rw
            (p.charge_point_table.update_or_create_old id put_queue (new_charge_point id queue) r
              rows found)
            refl
    ]

    pub upserted_lem :
        (upserted.0.id ≡ id)
        × Has (λ r. r.ws_queue ≡ queue) upserted.1
        × (others upserted.1 ≡ others rows)
    upserted_lem = elim (Option-cases (find is_it rows)) [
      | inl none_ ↦
          rw
            (p.charge_point_table.update_or_create_new id put_queue (new_charge_point id queue) rows
              none_)
            (
              refl,
              Has-new (new_charge_point id queue) refl rows (find-none rows none_) _ refl,
              others-new (new_charge_point id queue) refl rows (find-none rows none_),
            )
      | inr (r, found) ↦
          let (same, is_there) = find-some rows r found in
          rw
            (p.charge_point_table.update_or_create_old id put_queue (new_charge_point id queue) r
              rows found)
            (
              same,
              (
                any-save_it put_queue (λ s. refl) rows ∙ is_there,
                All-save_it put_queue (λ s. refl) (λ s. Unit {0}) (λ s. s.ws_queue ≡ queue)
                    (λ s u. refl) rows (All-any_it rows),
              ),
              others-save_it put_queue (λ s. refl) rows,
            )
    ]
