-- ===== src/Routing.antt =====
-- The routes of the API: those of controller.go, appHandler, and those that crud.go adds for a kind
-- of thing. A route names its last handler; the middleware before it looks up what the path names.
-- martini's matcher is not modelled: `IsRouter` says what it documents.
pub mod Injecting
pub mod Supplied
use flynn_controller.Prelude.{
  ℕ, Bool, true, false, Option, none, some, List, [], ◌∷◌, ◌++◌, ◌≡◌, Text, codes, text_eq,
  list_eqb, ◌==◌, ◌&&◌, not, nat_eqb, all, All, if◌then◌else◌,
}
use flynn_controller.Prelude.Map.{Map}
use flynn_controller.Strings.{join}

-- a part of a pattern between slashes: a text, or `:name`
pub data Segment : Type 0 where
  literal : Text → Segment
  param : Text → Segment

-- The handlers: those of crud for a kind of thing, and those of controller.go, jobs.go and
-- routes.go.
pub data Handler : Type 0 where
  create read read_all remove_one change : Text → Handler
  formation_put formation_get formation_delete formation_list : Handler
  job_run job_list_all job_kill job_log_stream : Handler
  release_put release_get : Handler
  resource_provision resource_list resource_read resource_put app_resources : Handler
  route_create route_list_all route_read route_delete : Handler

pub record Entry : Type 0 where
  pub method : Text
  pub pattern : List Segment
  pub handler : Handler

abbrev pub id_name : Text → Text
id_name resource = resource ++ codes "_id"

abbrev route_of : Text → List Segment → Handler → Entry
route_of method pattern handler = record { method = method; pattern = pattern; handler = handler }

abbrev pub get_method : Text
get_method = codes "GET"

abbrev pub post_method : Text
post_method = codes "POST"

abbrev pub put_method : Text
put_method = codes "PUT"

abbrev pub delete_method : Text
delete_method = codes "DELETE"

-- "/things" and "/things/:things_id"
abbrev prefix : Text → List Segment
prefix resource = literal resource ∷ []

abbrev singleton_path : Text → List Segment
singleton_path resource = literal resource ∷ param (id_name resource) ∷ []

-- the routes that crud adds, with Remove and with Update if the repository has them
abbrev pub crud_routes : Text → Bool → Bool → List Entry
crud_routes resource remover updater =
    route_of post_method (prefix resource) (create resource)
      ∷ route_of get_method (singleton_path resource) (read resource)
      ∷ route_of get_method (prefix resource) (read_all resource)
      ∷ (if remover
          then route_of delete_method (singleton_path resource) (remove_one resource) ∷ []
          else [])
    ++ (if updater
        then route_of post_method (singleton_path resource) (change resource) ∷ []
        else [])

-- "/apps/:apps_id/..." and "/providers/:providers_id/..."
abbrev of_app : List Segment → List Segment
of_app rest = literal (codes "apps") ∷ param (codes "apps_id") ∷ rest

abbrev of_provider : List Segment → List Segment
of_provider rest = literal (codes "providers") ∷ param (codes "providers_id") ∷ rest

abbrev one_formation : List Segment
one_formation = of_app (literal (codes "formations") ∷ param (codes "releases_id") ∷ [])

abbrev one_job : List Segment → List Segment
one_job rest = of_app (literal (codes "jobs") ∷ param (codes "jobs_id") ∷ rest)

abbrev one_resource : List Segment
one_resource = of_provider (literal (codes "resources") ∷ param (codes "resources_id") ∷ [])

abbrev one_route : List Segment
one_route =
    of_app (literal (codes "routes") ∷ param (codes "routes_type") ∷ param (codes "routes_id") ∷ [])

abbrev formation_routes : List Entry
formation_routes =
    route_of put_method one_formation formation_put
    ∷ route_of get_method one_formation formation_get
    ∷ route_of delete_method one_formation formation_delete
    ∷ route_of get_method (of_app (literal (codes "formations") ∷ [])) formation_list
    ∷ []

abbrev job_routes : List Entry
job_routes =
    route_of post_method (of_app (literal (codes "jobs") ∷ [])) job_run
    ∷ route_of get_method (of_app (literal (codes "jobs") ∷ [])) job_list_all
    ∷ route_of delete_method (one_job []) job_kill
    ∷ route_of get_method (one_job (literal (codes "log") ∷ [])) job_log_stream
    ∷ route_of put_method (of_app (literal (codes "release") ∷ [])) release_put
    ∷ route_of get_method (of_app (literal (codes "release") ∷ [])) release_get
    ∷ []

abbrev resource_routes : List Entry
resource_routes =
    route_of post_method (of_provider (literal (codes "resources") ∷ [])) resource_provision
    ∷ route_of get_method (of_provider (literal (codes "resources") ∷ [])) resource_list
    ∷ route_of get_method one_resource resource_read
    ∷ route_of put_method one_resource resource_put
    ∷ route_of get_method (of_app (literal (codes "resources") ∷ [])) app_resources
    ∷ []

abbrev route_routes : List Entry
route_routes =
    route_of post_method (of_app (literal (codes "routes") ∷ [])) route_create
    ∷ route_of get_method (of_app (literal (codes "routes") ∷ [])) route_list_all
    ∷ route_of get_method one_route route_read
    ∷ route_of delete_method one_route route_delete
    ∷ []

-- appHandler
unfoldable pub table : List Entry
table =
    crud_routes (codes "apps") false true
    ++ crud_routes (codes "releases") false false
    ++ crud_routes (codes "providers") false false
    ++ crud_routes (codes "artifacts") false false
    ++ crud_routes (codes "keys") true false
    ++ formation_routes
    ++ job_routes
    ++ resource_routes
    ++ route_routes

-- a byte that neither ends a part of a path nor starts an escape
abbrev pub plain_byte : ℕ → Bool
plain_byte c =
    not (nat_eqb c b'/') && not (nat_eqb c b'?') && not (nat_eqb c b'#') && not (nat_eqb c b'%')

unfoldable pub is_plain : Text → Bool
unfolding all
is_plain [] = false
is_plain (c ∷ s) = all plain_byte (c ∷ s)

abbrev pub IsPlain : Text → Type 0
IsPlain s = is_plain s ≡ true

-- /a/b/c
abbrev pub path_of : List Text → Text
path_of [] = []
path_of (v ∷ vs) = b'/' ∷ join b'/' v vs

abbrev pub with_param : Text → Text → Option (Map Text Text) → Option (Map Text Text)
with_param name v none = none
with_param name v (some params) = some ((name, v) ∷ params)

-- What a pattern is documented to match: texts match themselves, and `:name` any part of a path.
unfoldable pub fit : List Segment → List Text → Option (Map Text Text)
unfolding list_eqb
fit [] [] = some []
fit [] (v ∷ vs) = none
fit (p ∷ ps) [] = none
fit (literal t ∷ ps) (v ∷ vs) = if t == v then fit ps vs else none
fit (param name ∷ ps) (v ∷ vs) = with_param name v (fit ps vs)

-- The first route to match is taken.
unfoldable pub first_fit : List Entry → Text → List Text → Option (Handler × Map Text Text)
unfolding fit list_eqb
first_fit [] method vs = none
first_fit (e ∷ entries) method vs = elim (if e.method == method then fit e.pattern vs else none) [
  | none ↦ first_fit entries method vs
  | some params ↦ some (e.handler, params)
]

-- What martini documents of its router, for paths of plain parts.
abbrev pub IsRouter : (List Entry → Text → Text → Option (Handler × Map Text Text)) → Type 0
IsRouter dispatch =
    (entries : List Entry) (method : Text) (vs : List Text)
    → All IsPlain vs
    → dispatch entries method (path_of vs) ≡ first_fit entries method vs
