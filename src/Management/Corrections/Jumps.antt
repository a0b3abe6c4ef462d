-- ===== src/Management/Corrections/Jumps.antt =====
-- The loop over a transaction's readings in be/ocpp/management/commands/correct_meter_values.py,
-- against the list of jumps between neighbours.
use mathlib.Core.List.{append-nil, append_assoc}
use levity.Prelude.{
  ℕ, String, ◌≡◌, refl, ap, sym, ◌∙◌, Bool, true, false, none, some, List, [], ◌∷◌, ◌++◌, map, find,
  keep, any, str_eq, pos, if◌then◌else◌, ◌==◌, ◌||◌, Bool-cases, inl, inr,
}
use levity.Management.Corrections.{
  is_jump, save_incorrect, note_jump, read_value, read_values, delta_value, jump_row,
}
use levity.Management.Reporting.{Reporting, Row, charge_point_text, text_of}
use levity.Models.Rows.{Transaction, MeterValue}
use levity.Models.World.{World, Exec, done, pure, ◌>>=◌}
use levity.Platform.{Platform}
use levity.Types.Error.{ok}
use levity.Value.{Value, num}

-- Each reading after the one that it is compared with.
abbrev pub neighbours : MeterValue → List MeterValue → List (MeterValue × MeterValue)
neighbours prev [] = []
neighbours prev (cur ∷ rest) = (prev, cur) ∷ neighbours cur rest

abbrev pub pairs_of : List MeterValue → List (MeterValue × MeterValue)
pairs_of [] = []
pairs_of (r ∷ rs) = neighbours r rs

abbrev pub marked : MeterValue → MeterValue
marked r = record r { is_incorrect = true }

abbrev pub mark_row : List ℕ → MeterValue → MeterValue
mark_row ids r = if any (λ k. r.id == k) ids then marked r else r

-- The rows of a table, those with these keys marked.
abbrev pub mark : List ℕ → List MeterValue → List MeterValue
mark ids rows = map (mark_row ids) rows

mark_none : (rows : List MeterValue) → mark [] rows ≡ rows
mark_none [] = refl
mark_none (r ∷ rows) = ap (λ l. r ∷ l) (mark_none rows)

mark_row_twice :
    (r : MeterValue) (is_first is_other : Bool)
    → (if is_other
        then marked (if is_first then marked r else r)
        else (if is_first then marked r else r))
      ≡ (if is_first || is_other then marked r else r)
mark_row_twice r true true = refl
mark_row_twice r true false = refl
mark_row_twice r false true = refl
mark_row_twice r false false = refl

id_marked : (r : MeterValue) (is_first : Bool) → (if is_first then marked r else r).id ≡ r.id
id_marked r true = refl
id_marked r false = refl

mark-mark :
    (k : ℕ) (ids : List ℕ) (rows : List MeterValue)
    → mark ids (map (λ r. if r.id == k then marked r else r) rows) ≡ mark (k ∷ ids) rows
mark-mark k ids [] = refl
mark-mark k ids (r ∷ rows) =
    let once = if r.id == k then marked r else r in
    let same_id = id_marked r (r.id == k) in
    let head =
      ap (λ n. if any (λ j. n == j) ids then marked once else once) same_id
      ∙ mark_row_twice r (r.id == k) (any (λ j. r.id == j) ids) in
    λ i. head i ∷ mark-mark k ids rows i

module _ ⦃p : Platform⦄ ⦃q : Reporting⦄ where
  abbrev pub jumps_of : List (MeterValue × MeterValue) → List (MeterValue × MeterValue)
  jumps_of pairs = keep (λ e. is_jump e.0 e.1) pairs

  abbrev pub add_deltas : Value → List (MeterValue × MeterValue) → Value
  add_deltas c [] = c
  add_deltas c ((prev, cur) ∷ rest) = add_deltas (q.plus c (delta_value prev cur)) rest

  abbrev pub rows_for : Transaction → String → List (MeterValue × MeterValue) → List Row
  rows_for tx text jumps = map (λ e. jump_row tx text e.0 e.1) jumps

  abbrev pub marks_of : List (MeterValue × MeterValue) → List ℕ
  marks_of jumps = map (λ e. e.1.id) jumps

  -- The state after the readings of these jumps were marked.
  abbrev pub after_marks : Bool → List (MeterValue × MeterValue) → World → World
  after_marks true jumps w = w
  after_marks false jumps w = record w { meter_values = mark (marks_of jumps) w.meter_values }

  abbrev pub Names : Transaction → String → World → Type 0
  Names tx text w = text_of (find (λ r. str_eq r.id tx.charge_point) w.charge_points) ≡ ok text

  note_jump_done :
      (dry_run : Bool) (tx : Transaction) (prev cur : MeterValue) (c : Value) (rows : List Row)
      (text : String) (w : World)
      → Names tx text w
      → note_jump dry_run tx prev cur c rows w
        ≡ done
            (q.plus c (delta_value prev cur), rows ++ jump_row tx text prev cur ∷ [])
            (after_marks dry_run ((prev, cur) ∷ []) w)
  unfolding note_jump charge_point_text save_incorrect ◌>>=◌
  note_jump_done true tx prev cur c rows text w named = rw named refl
  note_jump_done false tx prev cur c rows text w named =
      rw (named, p.meter_value_table.save_lem cur.id marked w.meter_values)
        (ap
          (λ l.
            done (q.plus c (delta_value prev cur), rows ++ jump_row tx text prev cur ∷ [])
              (record w { meter_values = l }))
          (sym (mark_none _) ∙ mark-mark cur.id [] w.meter_values))

  after_marks_none : (dry_run : Bool) (w : World) → after_marks dry_run [] w ≡ w
  after_marks_none true w = refl
  after_marks_none false w = ap (λ l. record w { meter_values = l }) (mark_none w.meter_values)

  after_marks_more :
      (dry_run : Bool) (e : MeterValue × MeterValue) (rest : List (MeterValue × MeterValue))
      (w : World)
      → after_marks dry_run rest (after_marks dry_run (e ∷ []) w) ≡ after_marks dry_run (e ∷ rest) w
  after_marks_more true e rest w = refl
  after_marks_more false e rest w =
      let once : mark (e.1.id ∷ []) w.meter_values
          ≡ map (λ r. if r.id == e.1.id then marked r else r) w.meter_values =
        sym (mark-mark e.1.id [] w.meter_values) ∙ mark_none _ in
      ap (λ l. record w { meter_values = l })
        (ap (mark (marks_of rest)) once ∙ mark-mark e.1.id (marks_of rest) w.meter_values)

  Names-after_marks :
      (dry_run : Bool) (tx : Transaction) (text : String) (jumps : List (MeterValue × MeterValue))
      (w : World)
      → Names tx text w
      → Names tx text (after_marks dry_run jumps w)
  Names-after_marks true tx text jumps w h = h
  Names-after_marks false tx text jumps w h = h

  bind_done :
      {A B : Type 0} (m : Exec A) (f : A → Exec B) (w v : World) (a : A)
      → m w ≡ done a v
      → (m >>= f) w ≡ f a v
  unfolding ◌>>=◌
  bind_done m f w v a e = rw e refl

  read_values_from :
      (dry_run : Bool) (tx : Transaction) (prev : MeterValue) (rest : List MeterValue) (c : Value)
      (rows : List Row) (text : String) (w : World)
      → Names tx text w
      → read_values dry_run tx (some prev) rest c rows w
        ≡ done
            (
              add_deltas c (jumps_of (neighbours prev rest)),
              rows ++ rows_for tx text (jumps_of (neighbours prev rest)),
            )
            (after_marks dry_run (jumps_of (neighbours prev rest)) w)
  unfolding read_values read_value pure
  read_values_from dry_run tx prev [] c rows text w named =
      rw (append-nil rows, after_marks_none dry_run w) refl
  read_values_from dry_run tx prev (cur ∷ rest) c rows text w named =
      elim (Bool-cases (is_jump prev cur)) [
        | inl jump ↦
            let e : MeterValue × MeterValue = (prev, cur) in
            let v = after_marks dry_run (e ∷ []) w in
            let row = jump_row tx text prev cur in
            let c' = q.plus c (delta_value prev cur) in
            rw jump (
              bind_done (note_jump dry_run tx prev cur c rows) _ w v _
                (note_jump_done dry_run tx prev cur c rows text w named)
              ∙ read_values_from dry_run tx cur rest c' (rows ++ row ∷ []) text v
                  (Names-after_marks dry_run tx text (e ∷ []) w named)
              ∙ ap
                  (λ l.
                    done (add_deltas c' (jumps_of (neighbours cur rest)), l)
                      (after_marks dry_run (jumps_of (neighbours cur rest)) v))
                  (append_assoc rows (row ∷ []) _)
              ∙ ap
                  (done (
                    add_deltas c' (jumps_of (neighbours cur rest)),
                    rows ++ row ∷ rows_for tx text (jumps_of (neighbours cur rest)),
                  ))
                  (after_marks_more dry_run e (jumps_of (neighbours cur rest)) w))
        | inr no_jump ↦ rw no_jump (
            bind_done (pure (c, rows)) _ w w (c, rows) refl
            ∙ read_values_from dry_run tx cur rest c rows text w named)
      ]

  -- In a state that has the transaction's charge point, the loop over a transaction's readings
  -- returns: the correction is the sum of the jumps between neighbours in their order, the rows are
  -- theirs, and outside a dry run exactly the readings after a jump are marked.
  pub read_values-jumps :
      (dry_run : Bool) (tx : Transaction) (readings : List MeterValue) (text : String) (w : World)
      → Names tx text w
      → read_values dry_run tx none readings (num (pos 0) 0) [] w
        ≡ done
            (
              add_deltas (num (pos 0) 0) (jumps_of (pairs_of readings)),
              rows_for tx text (jumps_of (pairs_of readings)),
            )
            (after_marks dry_run (jumps_of (pairs_of readings)) w)
  unfolding read_values read_value pure
  read_values-jumps dry_run tx [] text w named = rw (after_marks_none dry_run w) refl
  read_values-jumps dry_run tx (r ∷ rest) text w named =
      bind_done (pure (num (pos 0) 0, [])) _ w w (num (pos 0) 0, []) refl
      ∙ read_values_from dry_run tx r rest (num (pos 0) 0) [] text w named
