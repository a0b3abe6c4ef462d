-- ===== src/Gateway/Sessions/Merging.antt =====
-- What the backend gets from the tasks of ws/src/levity_ws/server.py, however they interleave.
use levity.Prelude.{◌≡◌, refl, sym, ap, subst, Option, none, some, List, [], ◌∷◌, ◌⊎◌, inl, inr}
use levity.Gateway.Ordered.Sending.{rpc_receive-Keeps}
use levity.Gateway.Sessions.Branches.{
  accepted-branches, leave-branches, handled-branches, got-branches,
}
use levity.Gateway.Sessions.{
  Visit, After, start_client, leave, put_envelope, handled, Acts, accepts, replaces, announces,
  gets, restores, goes_on, passes, hangs_up, leaves, parts, ends, breaks, Tasks, Replaced, at_head,
  further, new_visit, Moves, acts, opens, then_delivers, consumes, Runs, at_once, then_moves,
}
use levity.Gateway.State.{Envelope, Gateway, Runtime, put_client}
use levity.Types.Error.{Error}
use levity.Value.{Value}

abbrev pub told : List Visit → List (List Envelope)
told [] = []
told (s ∷ ss) = s.published ∷ told ss

-- A list that takes the entries of several lists, each in its own order. All hold the newest first.
pub data Merged : List (List Envelope) → List Envelope → Type 0 where
  nothing_told : Merged [] []
  joins : {ls : List (List Envelope)} {es : List Envelope} → Merged ls es → Merged ([] ∷ ls) es
  tells :
      (e : Envelope) {l es : List Envelope} {ls ks : List (List Envelope)}
      → Replaced l (e ∷ l) ls ks
      → Merged ls es
      → Merged ks (e ∷ es)

-- A step that publishes nothing, and one that publishes one envelope.
abbrev Quiet : Gateway → Visit → After → Type 0
Quiet g s o = (o.0.rpc ≡ g.rpc) × (o.1.published ≡ s.published)

abbrev Telling : Gateway → Visit → After → Type 0
Telling g s o = (e : Envelope) × (o.0.rpc ≡ e ∷ g.rpc) × (o.1.published ≡ e ∷ s.published)

told-more :
    {s t : Visit} {ss ts : List Visit} {e : Envelope}
    → t.published ≡ e ∷ s.published
    → Replaced s t ss ts
    → Replaced s.published (e ∷ s.published) (told ss) (told ts)
told-more {ss = []} more r = elim r [ ]
told-more {ss = s ∷ ss} {e = e} more at_head =
    subst (λ l. Replaced s.published (e ∷ s.published) (told (s ∷ ss)) (l ∷ told ss)) (sym more)
      at_head
told-more {ss = s ∷ ss} more (further r) = further (told-more more r)

told-same :
    {s t : Visit} {ss ts : List Visit}
    → t.published ≡ s.published
    → Replaced s t ss ts
    → told ts ≡ told ss
told-same {ss = []} same r = elim r [ ]
told-same {ss = s ∷ ss} same at_head = ap (λ l. l ∷ told ss) same
told-same {ss = s ∷ ss} same (further r) = ap (λ ls. s.published ∷ ls) (told-same same r)

leave-Quiet : (o : Option Error) (g : Gateway) (s : Visit) → Quiet g s (leave o g s)
leave-Quiet o g s = leave-branches (Quiet g s) o g s (refl, refl) (λ c. (refl, refl))

module _ ⦃r : Runtime⦄ where
  handled-Quiet : (m : Value) (g : Gateway) (s : Visit) → Quiet g s (handled m g s)
  unfolding put_client
  handled-Quiet m g s =
      handled-branches (Quiet g s) m g s (λ e. leave-Quiet (some e) g s)
        (λ e c. leave-Quiet (some e) (put_client s.id c g) s) (λ c. (refl, refl))

  Acts-Quiet : {g : Gateway} {s : Visit} {o : After} → Acts g s o → Quiet g s o ⊎ Telling g s o
  unfolding start_client put_envelope put_client
  Acts-Quiet {g = g} {s = s} (accepts p) =
      inl (accepted-branches (Quiet g s) g s (refl, refl) (λ c. (refl, refl)))
  Acts-Quiet (replaces c p) = inl (refl, refl)
  Acts-Quiet (announces p) = inr (_, refl, refl)
  Acts-Quiet {g = g} {s = s} (gets m p) =
      inl (got-branches (Quiet g s) m g s (refl, refl) (handled-Quiet m g _))
  Acts-Quiet (restores m p) = inr (_, refl, refl)
  Acts-Quiet {g = g} {s = s} (goes_on m p) = inl (handled-Quiet m g s)
  Acts-Quiet (passes m p) = inr (_, refl, refl)
  Acts-Quiet {g = g} {s = s} (hangs_up p) = inl (leave-Quiet none g s)
  Acts-Quiet (leaves c e p) = inl (refl, refl)
  Acts-Quiet (parts e p) = inr (_, refl, refl)
  Acts-Quiet (ends e p) = inl (refl, refl)
  Acts-Quiet {g = g} {s = s} (breaks e p) = inl (leave-Quiet (some e) g s)

  Moves-Merged :
      {v w : Tasks}
      → Moves v w
      → Merged (told v.visits) v.hub.rpc
      → Merged (told w.visits) w.hub.rpc
  unfolding put_client new_visit
  Moves-Merged {v = v} {w = w} (acts a r) so_far = elim (Acts-Quiet a) [
    | inl (same, quiet) ↦ rw (same, told-same quiet r) so_far
    | inr (e, more, news) ↦ rw more (tells e (told-more news r) so_far)
  ]
  Moves-Merged (opens k id) so_far = joins so_far
  Moves-Merged (consumes id c c' fs cs found same) so_far = so_far

-- Whatever the tasks of the sockets, the deliveries and the consumers do, in any interleaving and with
-- any exceptions, from a server without sockets that has published nothing: what it has published
-- for the backend is a merge of what the tasks of its sockets published, each in its own order.
pub Runs-Merged :
    ⦃r : Runtime⦄ (g : Gateway) (v : Tasks)
    → g.rpc ≡ []
    → Runs (record { hub = g; visits = [] }) v
    → Merged (told v.visits) v.hub.rpc
Runs-Merged g v empty at_once = rw empty nothing_told
Runs-Merged g v empty (then_moves before m) = Moves-Merged m (Runs-Merged g _ empty before)
Runs-Merged g v empty (then_delivers d {g = h} {ss = ss} before) =
    rpc_receive-Keeps (λ clients rpc. Merged (told ss) rpc) d h (Runs-Merged g _ empty before)
