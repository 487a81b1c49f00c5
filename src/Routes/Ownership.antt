-- ===== src/Routes/Ownership.antt =====
-- A request under one application reaches the routes of that application only.
use flynn_controller.Prelude.{
  ◌≡◌, ◌≢◌, ap, sym, ◌∙◌, List, [], ◌∷◌, ◌++◌, Text, text_eq, eq_iff, codes, arith, drop,
}
use flynn_controller.Types.{App}
use flynn_controller.Http.{Response, header}
use flynn_controller.Routes.{RouterRoute, found, Router, route_parent_ref, route_id, with_route}

append_injective : {A : Type 0} (p a b : List A) → p ++ a ≡ p ++ b → a ≡ b
append_injective [] a b h = h
append_injective (x ∷ p) a b h = append_injective p a b (ap (drop 1) h)

-- Applications with different identifiers have different references.
route_parent_ref_injective : (a b : App) → route_parent_ref a ≡ route_parent_ref b → a.id ≡ b.id
unfolding route_parent_ref
route_parent_ref_injective a b h = append_injective (codes "controller/apps/") a.id b.id h

module _ {W A : Type 0} (router : Router W) where
  -- When the router answers a route that was created under an application, a request under another
  -- one is answered 404 and the handler behind the lookup is not run: the world is the one that
  -- the lookup left.
  pub with_route_foreign :
      (next : RouterRoute → W → Response A × W) (owner other : App) (type id : Text)
      (route : RouterRoute) (w w1 : W)
      → router.get (route_id type id) w ≡ (found route, w1)
      → route.parent_ref ≡ route_parent_ref owner
      → owner.id ≢ other.id
      → with_route router next other type id w ≡ (header 404, w1)
  unfolding with_route
  with_route_foreign next owner other type id route w w1 got owned differ =
      let foreign = λ (e : route.parent_ref ≡ route_parent_ref other).
        differ (route_parent_ref_injective owner other (sym owned ∙ e)) in
      ground (arith, eq_iff route.parent_ref (route_parent_ref other), foreign)
