-- ===== src/Tests/Routes.antt =====
-- routes.go over a router that knows one route.
use flynn_controller.Prelude.{◌≡◌, refl, none, some, [], ◌∷◌, ℕ, Text, codes, text_eq, false, arith}
use flynn_controller.Types.{App}
use flynn_controller.Http.{header}
use flynn_controller.Routes.{RouterRoute, found, Router, route_parent_ref, with_route, delete_route}
use flynn_controller.Routes.Ownership.{with_route_foreign}

abbrev app : Text → App
app name = record {
  id = name;
  name = [];
  protected = false;
  meta = [];
  created_at = none;
  updated_at = none;
}

abbrev route : RouterRoute
route = record { id = codes "http/1"; parent_ref = codes "controller/apps/a" }

-- The world counts the routes that were deleted.
abbrev router : Router ℕ
router = record {
  create = λ r w. (some r, w);
  get = λ id w. (found route, w);
  list = λ parent w. (some (route ∷ []), w);
  delete = λ id w. (found tt, 1);
}

deleted :
    with_route router (delete_route router) (app (codes "a")) (codes "http") (codes "1") 0
    ≡ (header 200, 1)
unfolding with_route delete_route
deleted = refl

with_route_foreign_example :
    with_route router (delete_route router) (app (codes "b")) (codes "http") (codes "1") 0
    ≡ (header 404, 0)
unfolding route_parent_ref
with_route_foreign_example =
    with_route_foreign router (delete_route router) (app (codes "a")) (app (codes "b"))
      (codes "http") (codes "1") route 0 0 refl refl (ground arith)
