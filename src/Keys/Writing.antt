-- ===== src/Keys/Writing.antt =====
-- A write of a row of the messages' table, and a new row.
use levity.Prelude.{
  ℕ, ◌≡◌, refl, sym, ap, subst, ◌∙◌, true, List, [], ◌∷◌, All, All-In, In-All, In, here, there, any,
  any-All, map, Bool-cases, inl, inr, if◌then◌else◌, ◌==◌,
}
use levity.Keys.{
  Differ, Apart, SameColumns, IsStored, Kept, Apart-snoc, In-last, IsStored-more, stored-only,
}
use levity.Logic.Leaves.{SameKey}
use levity.Logic.Triple.{Ends}
use levity.Models.Rows.{Message, clash, same_actor}
use levity.Models.World.{World, created}
use levity.Objects.Messages.{insert_message}
use levity.Platform.{Platform}

-- What a write puts in the place of a row.
abbrev written : ℕ → (Message → Message) → Message → Message
written k f r = if r.id == k then f r else r

module _ (g : Message → Message) where
  Differ-mapped :
      (r s : Message) → SameColumns r (g r) → SameColumns s (g s) → Differ r s → Differ (g r) (g s)
  unfolding clash
  Differ-mapped r s (rid, ractor, rkey) (sid, sactor, skey) apart =
      rw (rid, ractor, rkey, sid, sactor, skey) apart

  Differ-map :
      (r : Message) (rows : List Message)
      → SameColumns r (g r)
      → All (λ s. SameColumns s (g s)) rows
      → All (Differ r) rows
      → All (Differ (g r)) (map g rows)
  Differ-map r [] same all apart = tt
  Differ-map r (s ∷ rows) same all apart =
      (Differ-mapped r s same all.0 apart.0, Differ-map r rows same all.1 apart.1)

  Apart-map :
      (rows : List Message) → All (λ s. SameColumns s (g s)) rows → Apart rows → Apart (map g rows)
  Apart-map [] all apart = tt
  Apart-map (r ∷ rows) all apart =
      (Differ-map r rows all.0 all.1 apart.0, Apart-map rows all.1 apart.1)

  In-map : (r : Message) (rows : List Message) → In r rows → In (g r) (map g rows)
  In-map r [] i = elim i [ ]
  In-map r (s ∷ rows) (here e) = here (ap g e)
  In-map r (s ∷ rows) (there i) = there (In-map r rows i)

  IsStored-map :
      (rows ms : List Message)
      → All (λ s. SameColumns s (g s)) rows
      → All (IsStored rows) ms
      → All (IsStored (map g rows)) ms
  IsStored-map rows [] all stored = tt
  IsStored-map rows (m ∷ ms) all ((r, i, (rid, ractor, rkey)), stored) =
      let (gid, gactor, gkey) = All-In (λ s. SameColumns s (g s)) r rows i all in
      (
        (g r, In-map r rows i, (gid ∙ rid, gactor ∙ ractor, gkey ∙ rkey)),
        IsStored-map rows ms all stored,
      )

-- A write that leaves these columns of every row with the key.
written-same :
    (k : ℕ) (f : Message → Message) (rows : List Message)
    → All (λ s. (s.id == k) ≡ true → SameColumns s (f s)) rows
    → All (λ s. SameColumns s (written k f s)) rows
written-same k f [] all = tt
written-same k f (s ∷ rows) all = (
  elim (Bool-cases (s.id == k)) [
    | inl hit ↦ rw hit (all.0 hit)
    | inr miss ↦ rw miss (refl, refl, refl)
  ],
  written-same k f rows all.1,
)

module _ ⦃p : Platform⦄ where
  pub write-Kept :
      (ms : List Message) (k : ℕ) (f : Message → Message) (w : World)
      → All (λ s. (s.id == k) ≡ true → SameColumns s (f s)) w.messages
      → Kept ms w
      → Kept ms (record w { messages = p.message_table.save k f w.messages })
  write-Kept ms k f w same (apart, stored) =
      let all = written-same k f w.messages same in
      rw (p.message_table.save_lem k f w.messages) (
        Apart-map (written k f) w.messages all apart,
        IsStored-map (written k f) w.messages ms all stored,
      )

  pub same-everywhere :
      (k : ℕ) (f : Message → Message) (rows : List Message)
      → SameKey f
      → All (λ s. (s.id == k) ≡ true → SameColumns s (f s)) rows
  same-everywhere k f [] same = tt
  same-everywhere k f (s ∷ rows) same = ((λ hit. same s), same-everywhere k f rows same)

  -- A whole object over its own row.
  pub same-over :
      (m : Message) (f : Message → Message) (rows : List Message)
      → ((s : Message) → SameColumns m (f s))
      → Apart rows
      → IsStored rows m
      → All (λ s. (s.id == m.id) ≡ true → SameColumns s (f s)) rows
  same-over m f rows over apart (r, i, (rid, ractor, rkey)) = In-All _ rows (λ s j hit.
      let (sid, sactor, skey) =
        All-In (λ t. (t.id == r.id) ≡ true → SameColumns r t) s rows j (stored-only r rows apart i)
          (subst (λ n. (s.id == n) ≡ true) (sym rid) hit) in
      let (fid, factor, fkey) = over s in
      (fid ∙ sym rid ∙ sym sid, factor ∙ sym ractor ∙ sym sactor, fkey ∙ sym rkey ∙ sym skey))

  -- The INSERT: a row that clashes with none, or an exception.
  pub insert-Kept :
      (ms : List Message) (m : Message) (w : World)
      → Kept ms w
      → Ends (λ row v. Kept (row ∷ ms) v) (Kept ms) (insert_message m w)
  unfolding insert_message created clash same_actor
  insert-Kept ms m w (apart, stored) = elim (Bool-cases (any (clash m) w.messages)) [
    | inl taken ↦ rw (p.message_table.create_lem m w.messages, taken, created) (apart, stored)
    | inr free ↦
        let new = record m { id = p.message_table.next w.messages } in
        rw (p.message_table.create_lem m w.messages, free, created)
          (
            Apart-snoc new w.messages apart (any-All (clash m) w.messages free)
                (any-All (λ r. r.id == new.id) w.messages (p.message_table.next_fresh w.messages)),
            (
              (new, In-last new w.messages, (refl, refl, refl)),
              IsStored-more new w.messages ms stored,
            ),
          )
  ]
