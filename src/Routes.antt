-- ===== src/Routes.antt =====
-- routes.go: the routes of an application in the router. A route belongs to the application that
-- its ParentRef names. The client of the router is a record of operations over the world.
pub mod Ownership
use flynn_controller.Prelude.{
  Bool, true, false, Option, none, some, List, [], ◌∷◌, ◌++◌, Text, codes, text_eq, list_eqb, ◌==◌,
  if◌then◌else◌,
}
use flynn_controller.Types.{App}
use flynn_controller.Http.{Response, json, header}

-- the fields of strowger.Route that the code reads or writes
pub record RouterRoute : Type 0 where
  pub id : Text
  pub parent_ref : Text

-- What a call of the router's client returns: a value, its ErrNotFound, or another error.
pub data Reply (A : Type 0) : Type 0 where
  found : A → Reply A
  missing broken : Reply A

pub record Router (W : Type 0) : Type 0 where
  -- the route as the call leaves it, or an error
  pub create : RouterRoute → W → Option RouterRoute × W
  pub get : Text → W → Reply RouterRoute × W
  pub list : Text → W → Option (List RouterRoute) × W
  pub delete : Text → W → Reply (Unit {0}) × W

-- routeParentRef
unfoldable pub route_parent_ref : App → Text
route_parent_ref app = codes "controller/apps/" ++ app.id

-- routeID, of the parameters routes_type and routes_id
unfoldable pub route_id : Text → Text → Text
route_id type id = type ++ codes "/" ++ id

module _ {W : Type 0} (router : Router W) where
  unfoldable pub create_route : App → RouterRoute → W → Response RouterRoute × W
  unfolding route_parent_ref
  create_route app route w =
      let (created, w1) = router.create (record route { parent_ref = route_parent_ref app }) w in
      elim created [ none ↦ (json 500 none, w1) | some r ↦ (json 200 (some r), w1) ]

  -- getRouteMiddleware before a handler
  unfoldable pub with_route :
      {A : Type 0} → (RouterRoute → W → Response A × W) → App → Text → Text → W → Response A × W
  unfolding route_parent_ref route_id list_eqb
  with_route next app type id w =
      let (reply, w1) = router.get (route_id type id) w in
      elim reply [
        | missing ↦ (header 404, w1)
        | broken ↦ (header 500, w1)
        | found route ↦
            let response = next route w1 in
            if route.parent_ref == route_parent_ref app then response else (header 404, w1)
      ]

  unfoldable pub get_route : RouterRoute → W → Response RouterRoute × W
  get_route route w = (json 200 (some route), w)

  unfoldable pub get_route_list : App → W → Response (List RouterRoute) × W
  unfolding route_parent_ref
  get_route_list app w =
      let (routes, w1) = router.list (route_parent_ref app) w in
      elim routes [ none ↦ (json 500 none, w1) | some rs ↦ (json 200 (some rs), w1) ]

  unfoldable pub delete_route : RouterRoute → W → Response (Unit {0}) × W
  delete_route route w =
      let (reply, w1) = router.delete route.id w in
      elim reply [
        | missing ↦ (header 404, w1)
        | broken ↦ (header 500, w1)
        | found u ↦ (header 200, w1)
      ]
