-- ===== src/Gateway/Sessions/Preceding.antt =====
-- The connect before a frame, in what the tasks of ws/src/levity_ws/server.py publish together.
use levity.Prelude.{
  String, ◌≡◌, refl, subst, Option, none, some, List, [], ◌∷◌, ◌⊎◌, inl, inr, In, here, there, All,
  arith,
}
use levity.Gateway.Sessions.Merging.{told, Merged, nothing_told, joins, tells, Runs-Merged}
use levity.Gateway.Sessions.Telling.{
  said, Spoken, greeting, again, frame, Silent, Leaving, Fits, IsTold, Runs-IsTold,
}
use levity.Gateway.Sessions.{
  Stage, accepting, replacing, announcing, idle, restoring, restored, passing, leaving, parting,
  closed, crashed, Visit, Tasks, Replaced, at_head, further, Runs,
}
use levity.Gateway.State.{Envelope, Gateway, Runtime}
use levity.Types.Action.{connect, disconnect, receive}
use levity.Types.Error.{Error}
use levity.Value.{Value}

-- Every frame of a charge point comes after a connect of it; the newest first.
abbrev pub Preceded : List Envelope → Type 0
Preceded [] = Unit
Preceded (e ∷ es) = (e.type ≡ receive → In (said connect e.id none) es) × Preceded es

Spoken-In :
    {id : String} {es : List Envelope} {ms : List Value}
    → Spoken id es ms
    → In (said connect id none) es
Spoken-In greeting = here refl
Spoken-In (again spoken) = there (Spoken-In spoken)
Spoken-In (frame m spoken) = there (Spoken-In spoken)

Spoken-Preceded :
    {id : String} {es : List Envelope} {ms : List Value} → Spoken id es ms → Preceded es
Spoken-Preceded greeting = (λ is_receive. ground (arith, is_receive), tt)
Spoken-Preceded (again spoken) = (λ is_receive. ground (arith, is_receive), Spoken-Preceded spoken)
Spoken-Preceded (frame m spoken) = (λ is_receive. Spoken-In spoken, Spoken-Preceded spoken)

module _ (id : String) (es : List Envelope) (rs : List Value) where
  Silent-Preceded : Silent es rs → Preceded es
  Silent-Preceded (quiet, no_frame) = rw quiet tt

  Leaving-Preceded : (o : Option Error) → Leaving o id es rs → Preceded es
  Leaving-Preceded none spoken = Spoken-Preceded spoken
  Leaving-Preceded (some e) (ms, spoken, last) = Spoken-Preceded spoken

  parted-Preceded :
      (before : List Envelope)
      → es ≡ said disconnect id none ∷ before
      → Preceded before
      → Preceded es
  parted-Preceded before same good = rw same (λ is_receive. ground (arith, is_receive), good)

  Fits-Preceded : (p : Stage) → Fits p id es rs → Preceded es
  Fits-Preceded accepting spoken = Silent-Preceded spoken
  Fits-Preceded (replacing c) spoken = Silent-Preceded spoken
  Fits-Preceded announcing spoken = Silent-Preceded spoken
  Fits-Preceded idle spoken = Spoken-Preceded spoken
  Fits-Preceded (restoring m) (ms, spoken, last) = Spoken-Preceded spoken
  Fits-Preceded (restored m) (ms, spoken, last) = Spoken-Preceded spoken
  Fits-Preceded (passing m) (ms, spoken, last) = Spoken-Preceded spoken
  Fits-Preceded (leaving c o) spoken = Leaving-Preceded o spoken
  Fits-Preceded (parting o) spoken = Leaving-Preceded o spoken
  Fits-Preceded closed (before, same, spoken) = parted-Preceded before same (Spoken-Preceded spoken)
  Fits-Preceded (crashed e) (inl silent) = Silent-Preceded silent
  Fits-Preceded (crashed e) (inr (inl (ms, spoken, last))) = Spoken-Preceded spoken
  Fits-Preceded (crashed e) (inr (inr (before, same, (ms, spoken, last)))) =
      parted-Preceded before same (Spoken-Preceded spoken)

told-Preceded : (ss : List Visit) → All IsTold ss → All Preceded (told ss)
told-Preceded [] all = tt
told-Preceded (s ∷ ss) all =
    (Fits-Preceded s.id s.published s.received s.stage all.0, told-Preceded ss all.1)

-- What is in a list that another has replaced by a longer one.
Replaced-In :
    {A : Type 0} {a b x : A} {xs ys : List A} → Replaced a b xs ys → In x ys → (x ≡ b) ⊎ In x xs
Replaced-In at_head (here same) = inl same
Replaced-In at_head (there i) = inr (there i)
Replaced-In (further r) (here same) = inr (here same)
Replaced-In (further r) (there i) = elim (Replaced-In r i) [
  | inl same ↦ inl same
  | inr j ↦ inr (there j)
]

Replaced-old : {A : Type 0} {a b : A} {xs ys : List A} → Replaced a b xs ys → In a xs
Replaced-old at_head = here refl
Replaced-old (further r) = there (Replaced-old r)

-- The entries of every list are in the merge.
Merged-In :
    {x : Envelope} {l es : List Envelope} {ls : List (List Envelope)}
    → Merged ls es
    → In l ls
    → In x l
    → In x es
Merged-In nothing_told i j = elim i [ ]
Merged-In {x = x} (joins m) (here same) j = elim (subst (In x) same j) [ ]
Merged-In (joins m) (there i) j = Merged-In m i j
Merged-In {x = x} (tells e r m) i j = elim (Replaced-In r i) [
  | inl same ↦ elim (subst (In x) same j) [
    | here first ↦ here first
    | there later ↦ there (Merged-In m (Replaced-old r) later)
  ]
  | inr old ↦ there (Merged-In m old j)
]

Replaced-Preceded :
    {e : Envelope} {l : List Envelope} {ls ks : List (List Envelope)}
    → Replaced l (e ∷ l) ls ks
    → All Preceded ks
    → Preceded (e ∷ l) × All Preceded ls
Replaced-Preceded at_head all = (all.0, (all.0.1, all.1))
Replaced-Preceded (further r) all =
    let (new, rest) = Replaced-Preceded r all.1 in (new, (all.0, rest))

Merged-Preceded :
    {ls : List (List Envelope)} {es : List Envelope} → Merged ls es → All Preceded ls → Preceded es
Merged-Preceded nothing_told all = tt
Merged-Preceded (joins m) all = Merged-Preceded m all.1
Merged-Preceded (tells e r m) all =
    let (new, old) = Replaced-Preceded r all in
    (λ is_receive. Merged-In m (Replaced-old r) (new.0 is_receive), Merged-Preceded m old)

-- Whatever the tasks of the sockets, the deliveries and the consumers do, in any interleaving and with
-- any exceptions, from a server without sockets that has published nothing: the backend gets every
-- frame of a charge point after a connect of that charge point.
pub Runs-Preceded :
    ⦃r : Runtime⦄ (g : Gateway) (v : Tasks)
    → g.rpc ≡ []
    → Runs (record { hub = g; visits = [] }) v
    → Preceded v.hub.rpc
Runs-Preceded g v empty runs =
    Merged-Preceded (Runs-Merged g v empty runs) (told-Preceded v.visits (Runs-IsTold g v runs))
