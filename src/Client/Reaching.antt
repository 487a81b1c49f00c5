-- ===== src/Client/Reaching.antt =====
-- The requests of the client meet the routes of the server.
use flynn_controller.Prelude.{
  ◌≡◌, ◌∙◌, refl, Option, some, List, [], ◌∷◌, Text, codes, text_eq, list_eqb, ◌==◌, false, All,
  all, arith,
}
use flynn_controller.Prelude.Map.{Map}
use flynn_controller.Strings.{remove_all}
use flynn_controller.Routing.{
  Handler, create, formation_get, formation_put, job_list_all, job_log_stream, job_run, read,
  read_all, release_get, release_put, remove_one, resource_provision, resource_put, route_create,
  route_list_all, Entry, IsPlain, is_plain, path_of, fit, first_fit, IsRouter, table, get_method,
  post_method, put_method, delete_method,
}
use flynn_controller.Client.{
  Call, create_artifact_call, create_release_call, create_app_call, create_provider_call,
  provision_resource_call, put_resource_call, put_formation_call, set_app_release_call,
  get_app_release_call, route_list_call, create_route_call, get_formation_call, get_release_call,
  get_artifact_call, get_app_call, get_job_log_call, run_job_attached_call, run_job_detached_call,
  job_list_call, key_list_call, create_key_call, delete_key_call, provider_list_call, request_of,
}

-- the identifiers in the path
abbrev pub arguments : Call → List Text
arguments create_artifact_call = []
arguments create_release_call = []
arguments create_app_call = []
arguments create_provider_call = []
arguments (provision_resource_call provider) = provider ∷ []
arguments (put_resource_call provider id) = provider ∷ id ∷ []
arguments (put_formation_call app release) = app ∷ release ∷ []
arguments (set_app_release_call app) = app ∷ []
arguments (get_app_release_call app) = app ∷ []
arguments (route_list_call app) = app ∷ []
arguments (create_route_call app) = app ∷ []
arguments (get_formation_call app release) = app ∷ release ∷ []
arguments (get_release_call id) = id ∷ []
arguments (get_artifact_call id) = id ∷ []
arguments (get_app_call id) = id ∷ []
arguments (get_job_log_call app job) = app ∷ job ∷ []
arguments (run_job_attached_call app) = app ∷ []
arguments (run_job_detached_call app) = app ∷ []
arguments (job_list_call app) = app ∷ []
arguments key_list_call = []
arguments create_key_call = []
arguments (delete_key_call id) = remove_all b':' id ∷ []
arguments provider_list_call = []

-- the handler that each method is for, and what it is told
abbrev pub target : Call → Handler × Map Text Text
target create_artifact_call = (create (codes "artifacts"), [])
target create_release_call = (create (codes "releases"), [])
target create_app_call = (create (codes "apps"), [])
target create_provider_call = (create (codes "providers"), [])
target (provision_resource_call provider) =
    (resource_provision, (codes "providers_id", provider) ∷ [])
target (put_resource_call provider id) =
    (resource_put, (codes "providers_id", provider) ∷ (codes "resources_id", id) ∷ [])
target (put_formation_call app release) =
    (formation_put, (codes "apps_id", app) ∷ (codes "releases_id", release) ∷ [])
target (set_app_release_call app) = (release_put, (codes "apps_id", app) ∷ [])
target (get_app_release_call app) = (release_get, (codes "apps_id", app) ∷ [])
target (route_list_call app) = (route_list_all, (codes "apps_id", app) ∷ [])
target (create_route_call app) = (route_create, (codes "apps_id", app) ∷ [])
target (get_formation_call app release) =
    (formation_get, (codes "apps_id", app) ∷ (codes "releases_id", release) ∷ [])
target (get_release_call id) = (read (codes "releases"), (codes "releases_id", id) ∷ [])
target (get_artifact_call id) = (read (codes "artifacts"), (codes "artifacts_id", id) ∷ [])
target (get_app_call id) = (read (codes "apps"), (codes "apps_id", id) ∷ [])
target (get_job_log_call app job) =
    (job_log_stream, (codes "apps_id", app) ∷ (codes "jobs_id", job) ∷ [])
target (run_job_attached_call app) = (job_run, (codes "apps_id", app) ∷ [])
target (run_job_detached_call app) = (job_run, (codes "apps_id", app) ∷ [])
target (job_list_call app) = (job_list_all, (codes "apps_id", app) ∷ [])
target key_list_call = (read_all (codes "keys"), [])
target create_key_call = (create (codes "keys"), [])
target (delete_key_call id) =
    (remove_one (codes "keys"), (codes "keys_id", remove_all b':' id) ∷ [])
target provider_list_call = (read_all (codes "providers"), [])

plain_given : (s : Text) → IsPlain s → (s == []) ≡ false
unfolding is_plain list_eqb
plain_given [] h = absurd (ground arith)
plain_given (c ∷ s) h = refl

-- The request of the call is taken to the handler.
abbrev pub Reaches : (List Entry → Text → Text → Option (Handler × Map Text Text)) → Call → Type 0
Reaches dispatch call =
    (request : Text × Text) × (request_of call ≡ some request)
    × (dispatch table request.0 request.1 ≡ some (target call))

reaches :
    (dispatch : List Entry → Text → Text → Option (Handler × Map Text Text)) (call : Call)
    (method : Text) (parts : List Text)
    → IsRouter dispatch
    → request_of call ≡ some (method, path_of parts)
    → All IsPlain parts
    → first_fit table method parts ≡ some (target call)
    → Reaches dispatch call
reaches dispatch call method parts router sent plain fits =
    ((method, path_of parts), sent, router table method parts plain ∙ fits)

-- Behind a router that does what martini documents, every request of the client is taken to the
-- handler that it is for, with the identifiers of the call, if none of these is empty or has a
-- slash, a question mark, a number sign or a percent sign.
pub client-Reaches :
    (dispatch : List Entry → Text → Text → Option (Handler × Map Text Text)) (call : Call)
    → IsRouter dispatch
    → All IsPlain (arguments call)
    → Reaches dispatch call
unfolding request_of table first_fit fit is_plain all list_eqb
client-Reaches dispatch create_artifact_call router plain =
    reaches dispatch create_artifact_call post_method (codes "artifacts" ∷ []) router refl
      (refl, tt) refl
client-Reaches dispatch create_release_call router plain =
    reaches dispatch create_release_call post_method (codes "releases" ∷ []) router refl (refl, tt)
      refl
client-Reaches dispatch create_app_call router plain =
    reaches dispatch create_app_call post_method (codes "apps" ∷ []) router refl (refl, tt) refl
client-Reaches dispatch create_provider_call router plain =
    reaches dispatch create_provider_call post_method (codes "providers" ∷ []) router refl
      (refl, tt) refl
client-Reaches dispatch (provision_resource_call provider) router (h0, end) =
    reaches dispatch (provision_resource_call provider) post_method
      (codes "providers" ∷ provider ∷ codes "resources" ∷ []) router
      (rw (plain_given provider h0) refl) (refl, (h0, (refl, tt))) refl
client-Reaches dispatch (put_resource_call provider id) router (h0, (h1, end)) =
    reaches dispatch (put_resource_call provider id) put_method
      (codes "providers" ∷ provider ∷ codes "resources" ∷ id ∷ []) router
      (rw (plain_given id h1, plain_given provider h0) refl) (refl, (h0, (refl, (h1, tt)))) refl
client-Reaches dispatch (put_formation_call app release) router (h0, (h1, end)) =
    reaches dispatch (put_formation_call app release) put_method
      (codes "apps" ∷ app ∷ codes "formations" ∷ release ∷ []) router
      (rw (plain_given app h0, plain_given release h1) refl) (refl, (h0, (refl, (h1, tt)))) refl
client-Reaches dispatch (set_app_release_call app) router (h0, end) =
    reaches dispatch (set_app_release_call app) put_method
      (codes "apps" ∷ app ∷ codes "release" ∷ []) router refl (refl, (h0, (refl, tt))) refl
client-Reaches dispatch (get_app_release_call app) router (h0, end) =
    reaches dispatch (get_app_release_call app) get_method
      (codes "apps" ∷ app ∷ codes "release" ∷ []) router refl (refl, (h0, (refl, tt))) refl
client-Reaches dispatch (route_list_call app) router (h0, end) =
    reaches dispatch (route_list_call app) get_method (codes "apps" ∷ app ∷ codes "routes" ∷ [])
      router refl (refl, (h0, (refl, tt))) refl
client-Reaches dispatch (create_route_call app) router (h0, end) =
    reaches dispatch (create_route_call app) post_method (codes "apps" ∷ app ∷ codes "routes" ∷ [])
      router refl (refl, (h0, (refl, tt))) refl
client-Reaches dispatch (get_formation_call app release) router (h0, (h1, end)) =
    reaches dispatch (get_formation_call app release) get_method
      (codes "apps" ∷ app ∷ codes "formations" ∷ release ∷ []) router refl
      (refl, (h0, (refl, (h1, tt)))) refl
client-Reaches dispatch (get_release_call id) router (h0, end) =
    reaches dispatch (get_release_call id) get_method (codes "releases" ∷ id ∷ []) router refl
      (refl, (h0, tt)) refl
client-Reaches dispatch (get_artifact_call id) router (h0, end) =
    reaches dispatch (get_artifact_call id) get_method (codes "artifacts" ∷ id ∷ []) router refl
      (refl, (h0, tt)) refl
client-Reaches dispatch (get_app_call id) router (h0, end) =
    reaches dispatch (get_app_call id) get_method (codes "apps" ∷ id ∷ []) router refl
      (refl, (h0, tt)) refl
client-Reaches dispatch (get_job_log_call app job) router (h0, (h1, end)) =
    reaches dispatch (get_job_log_call app job) get_method
      (codes "apps" ∷ app ∷ codes "jobs" ∷ job ∷ codes "log" ∷ []) router refl
      (refl, (h0, (refl, (h1, (refl, tt))))) refl
client-Reaches dispatch (run_job_attached_call app) router (h0, end) =
    reaches dispatch (run_job_attached_call app) post_method
      (codes "apps" ∷ app ∷ codes "jobs" ∷ []) router refl (refl, (h0, (refl, tt))) refl
client-Reaches dispatch (run_job_detached_call app) router (h0, end) =
    reaches dispatch (run_job_detached_call app) post_method
      (codes "apps" ∷ app ∷ codes "jobs" ∷ []) router refl (refl, (h0, (refl, tt))) refl
client-Reaches dispatch (job_list_call app) router (h0, end) =
    reaches dispatch (job_list_call app) get_method (codes "apps" ∷ app ∷ codes "jobs" ∷ []) router
      refl (refl, (h0, (refl, tt))) refl
client-Reaches dispatch key_list_call router plain =
    reaches dispatch key_list_call get_method (codes "keys" ∷ []) router refl (refl, tt) refl
client-Reaches dispatch create_key_call router plain =
    reaches dispatch create_key_call post_method (codes "keys" ∷ []) router refl (refl, tt) refl
client-Reaches dispatch (delete_key_call id) router (h0, end) =
    reaches dispatch (delete_key_call id) delete_method (codes "keys" ∷ remove_all b':' id ∷ [])
      router refl (refl, (h0, tt)) refl
client-Reaches dispatch provider_list_call router plain =
    reaches dispatch provider_list_call get_method (codes "providers" ∷ []) router refl (refl, tt)
      refl
