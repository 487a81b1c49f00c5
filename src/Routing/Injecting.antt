-- ===== src/Routing/Injecting.antt =====
-- controller.go, appHandler: the values that are mapped, and the chain of middleware and handler of
-- each route. martini calls a function with the values that are mapped for the types of its
-- parameters, and panics where there is none. A type is its Go name.
use flynn_controller.Prelude.{none, some, List, [], ◌∷◌, Text, codes, text_eq, list_eqb}
use flynn_controller.Prelude.Map
use flynn_controller.Prelude.Map.{Map}
use flynn_controller.Routing.{
  Handler, create, read, read_all, remove_one, change, formation_put, formation_get,
  formation_delete, formation_list, job_run, job_list_all, job_kill, job_log_stream, release_put,
  release_get, resource_provision, resource_list, resource_read, resource_put, app_resources,
  route_create, route_list_all, route_read, route_delete, id_name,
}

-- A function of a chain: the types of its parameters, the path parameters that it reads, and the
-- types that are mapped when it lets the next one run.
pub record Piece : Type 0 where
  pub needs : List Text
  pub reads : List Text
  pub gives : List Text

abbrev context : Text
context = codes "martini.Context"

abbrev params : Text
params = codes "martini.Params"

abbrev writer : Text
writer = codes "http.ResponseWriter"

abbrev request : Text
request = codes "*http.Request"

abbrev render : Text
render = codes "render.Render"

-- what martini and render.Renderer map for every request
abbrev pub per_request : List Text
per_request = context ∷ params ∷ writer ∷ request ∷ render ∷ []

abbrev app_repo : Text
app_repo = codes "*AppRepo"

abbrev release_repo : Text
release_repo = codes "*ReleaseRepo"

abbrev artifact_repo : Text
artifact_repo = codes "*ArtifactRepo"

abbrev formation_repo : Text
formation_repo = codes "*FormationRepo"

abbrev resource_repo : Text
resource_repo = codes "*ResourceRepo"

abbrev cluster_client : Text
cluster_client = codes "clusterClient"

abbrev router_client : Text
router_client = codes "strowgerc.Client"

abbrev discoverd_client : Text
discoverd_client = codes "resource.DiscoverdClient"

-- the calls of m.Map and m.MapTo
abbrev pub mapped : List Text
mapped =
    resource_repo
    ∷ app_repo
    ∷ artifact_repo
    ∷ release_repo
    ∷ formation_repo
    ∷ codes "*discoverd.Client"
    ∷ cluster_client
    ∷ router_client
    ∷ discoverd_client
    ∷ []

-- the type of the things that the repository of crud returns
abbrev thing_types : Map Text Text
thing_types =
    (codes "apps", codes "*ct.App")
    ∷ (codes "releases", codes "*ct.Release")
    ∷ (codes "providers", codes "*ct.Provider")
    ∷ (codes "artifacts", codes "*ct.Artifact")
    ∷ (codes "keys", codes "*ct.Key")
    ∷ []

unfoldable pub thing_of : Text → Text
unfolding Map.get list_eqb
thing_of resource = elim (Map.get resource thing_types) [ none ↦ [] | some t ↦ t ]

-- a function that maps nothing and reads no path parameter
abbrev last : List Text → List Piece
last needs = record { needs = needs; reads = []; gives = [] } ∷ []

abbrev piece : List Text → List Text → List Text → Piece
piece needs reads gives = record { needs = needs; reads = reads; gives = gives }

-- `lookup` of crud.go
unfoldable pub lookup_piece : Text → Piece
unfolding thing_of
lookup_piece resource =
    piece (context ∷ params ∷ request ∷ writer ∷ []) (id_name resource ∷ [])
      (thing_of resource ∷ [])

abbrev app : Text
app = codes "*ct.App"

abbrev provider : Text
provider = codes "*ct.Provider"

abbrev with_app : List Piece → List Piece
with_app rest = lookup_piece (codes "apps") ∷ rest

abbrev with_provider : List Piece → List Piece
with_provider rest = lookup_piece (codes "providers") ∷ rest

-- binding.Bind
abbrev bind : Text → Piece
bind body = piece (context ∷ request ∷ []) [] (body ∷ [])

abbrev formation : Text
formation = codes "*ct.Formation"

abbrev get_formation_middleware : Piece
get_formation_middleware =
    piece (context ∷ app ∷ params ∷ formation_repo ∷ writer ∷ []) (codes "releases_id" ∷ [])
      (formation ∷ [])

abbrev host : Text
host = codes "cluster.Host"

abbrev connect_host_middleware : Piece
connect_host_middleware =
    piece (context ∷ params ∷ cluster_client ∷ writer ∷ []) (codes "jobs_id" ∷ []) (host ∷ [])

abbrev server : Text
server = codes "*resource.Server"

abbrev resource_server_middleware : Piece
resource_server_middleware =
    piece (context ∷ provider ∷ discoverd_client ∷ writer ∷ []) [] (server ∷ [])

abbrev resource_thing : Text
resource_thing = codes "*ct.Resource"

abbrev get_resource_middleware : Piece
get_resource_middleware =
    piece (context ∷ params ∷ resource_repo ∷ writer ∷ []) (codes "resources_id" ∷ [])
      (resource_thing ∷ [])

abbrev route_thing : Text
route_thing = codes "*strowger.Route"

abbrev get_route_middleware : Piece
get_route_middleware =
    piece (app ∷ context ∷ params ∷ router_client ∷ writer ∷ [])
      (codes "routes_type" ∷ codes "routes_id" ∷ []) (route_thing ∷ [])

-- The functions of a route, in the order in which they run.
unfoldable pub chain_of : Handler → List Piece
unfolding lookup_piece thing_of
chain_of (create resource) = last (request ∷ render ∷ [])
chain_of (read resource) = lookup_piece resource ∷ last (context ∷ render ∷ thing_of resource ∷ [])
chain_of (read_all resource) = last (render ∷ [])
chain_of (remove_one resource) =
    lookup_piece resource ∷ piece (params ∷ writer ∷ []) (id_name resource ∷ []) [] ∷ []
chain_of (change resource) = piece (params ∷ request ∷ render ∷ []) (id_name resource ∷ []) [] ∷ []
chain_of formation_put = with_app (
    lookup_piece (codes "releases")
    ∷ bind (codes "ct.Formation")
    ∷ last (codes "ct.Formation" ∷ app ∷ codes "*ct.Release" ∷ formation_repo ∷ render ∷ []))
chain_of formation_get = with_app (get_formation_middleware ∷ last (formation ∷ render ∷ []))
chain_of formation_delete =
    with_app (get_formation_middleware ∷ last (formation ∷ formation_repo ∷ writer ∷ []))
chain_of formation_list = with_app (last (app ∷ formation_repo ∷ render ∷ []))
chain_of job_run = with_app (
    bind (codes "ct.NewJob")
    ∷ last (
        app
        ∷ codes "ct.NewJob"
        ∷ release_repo
        ∷ artifact_repo
        ∷ cluster_client
        ∷ request
        ∷ writer
        ∷ render
        ∷ []))
chain_of job_list_all = with_app (last (app ∷ cluster_client ∷ render ∷ []))
chain_of job_kill = with_app (
    connect_host_middleware
    ∷ piece (app ∷ params ∷ host ∷ writer ∷ []) (codes "jobs_id" ∷ []) []
    ∷ [])
chain_of job_log_stream = with_app (
    connect_host_middleware
    ∷ piece (request ∷ app ∷ params ∷ host ∷ writer ∷ []) (codes "jobs_id" ∷ []) []
    ∷ [])
chain_of release_put = with_app (
    bind (codes "releaseID")
    ∷ last (app ∷ codes "releaseID" ∷ app_repo ∷ release_repo ∷ formation_repo ∷ render ∷ []))
chain_of release_get = with_app (last (app ∷ app_repo ∷ render ∷ writer ∷ []))
chain_of resource_provision = with_provider (
    bind (codes "ct.ResourceReq")
    ∷ resource_server_middleware
    ∷ last (server ∷ provider ∷ codes "ct.ResourceReq" ∷ resource_repo ∷ render ∷ []))
chain_of resource_list = with_provider (last (provider ∷ resource_repo ∷ render ∷ []))
chain_of resource_read =
    with_provider (get_resource_middleware ∷ last (resource_thing ∷ render ∷ []))
chain_of resource_put = with_provider (
    bind (codes "ct.Resource")
    ∷ piece (provider ∷ params ∷ codes "ct.Resource" ∷ resource_repo ∷ render ∷ [])
        (codes "resources_id" ∷ []) []
    ∷ [])
chain_of app_resources = with_app (last (app ∷ resource_repo ∷ render ∷ []))
chain_of route_create = with_app (
    bind (codes "strowger.Route")
    ∷ last (app ∷ router_client ∷ codes "strowger.Route" ∷ render ∷ []))
chain_of route_list_all = with_app (last (app ∷ router_client ∷ render ∷ []))
chain_of route_read = with_app (get_route_middleware ∷ last (route_thing ∷ render ∷ []))
chain_of route_delete =
    with_app (get_route_middleware ∷ last (route_thing ∷ router_client ∷ writer ∷ []))
