-- ===== src/Middleware/Chain/Build.antt =====
-- get_middleware of be/ocpp/services/charge_point_message_handler.py, against a recursion.
use levity.Prelude.{◌≡◌, refl, ap, ◌∙◌, Option, some, none, List, [], ◌∷◌, ◌++◌, map, reverse}
use mathlib.Core.List.{reverse-cons}
use levity.Middleware.Base.{handle_response}
use levity.Middleware.Chain.{
  Link, layer, response, go_on, instantiate, build, handle_class, get_middleware,
}
use levity.Models.Exchange.{Handler, MiddlewareClass}
use levity.Platform.{Platform}
use levity.Types.Error.{Result, ok, err}

module _ ⦃p : Platform⦄ where
  -- The chain as a recursion from the front.
  unfoldable pub chain : List MiddlewareClass → Handler
  chain [] = handle_response
  chain (c ∷ cs) = handle_class c (chain cs)

  go_on-append :
      (ls ms : List Link) (r : Result Handler) {h : Option Handler}
      → ((prev h : Option Handler) → build ls prev ≡ ok h → build (ls ++ ms) prev ≡ build ms h)
      → go_on (build ls) r ≡ ok h
      → go_on (build (ls ++ ms)) r ≡ build ms h
  go_on-append ls ms (ok g) {h} rest e = rest (some g) h e
  go_on-append ls ms (err x) rest e = cc

  build-append :
      (ls ms : List Link) (prev h : Option Handler)
      → build ls prev ≡ ok h
      → build (ls ++ ms) prev ≡ build ms h
  unfolding build
  build-append [] ms prev h e = ap (build ms) (cc)
  build-append (l ∷ ls) ms prev h e = go_on-append ls ms (instantiate l prev) (build-append ls ms) e

  build_layers :
      (cs : List MiddlewareClass)
      → build (reverse (map layer cs ++ response ∷ [])) none ≡ ok (some (chain cs))
  unfolding build instantiate chain
  build_layers [] = refl
  build_layers (c ∷ cs) =
      let rest = map layer cs ++ response ∷ [] in
      ap (λ (ls : List Link). build ls none) (reverse-cons (layer c) rest)
      ∙ build-append (reverse rest) (layer c ∷ []) none (some (chain cs)) (build_layers cs)

  -- The loop over the reversed classes builds the chain in which every class wraps the one after it
  -- and ResponseMiddleware stands innermost; it never fails.
  pub get_middleware-eq-chain :
      (cs : List MiddlewareClass) → get_middleware cs ≡ ok (some (chain cs))
  unfolding get_middleware
  get_middleware-eq-chain cs = build_layers cs
