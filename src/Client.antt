-- ===== src/Client.antt =====
-- client/client.go: the requests that the methods of Client send, and what they make of the answer.
-- The connection is an argument. A request is its method and its path.
pub mod Reaching
pub mod Admitted
pub mod Connecting
pub mod Attaching
use flynn_controller.Prelude.{
  ℕ, Option, none, some, List, [], ◌∷◌, ◌++◌, Text, codes, text_eq, list_eqb, ◌==◌, ◌||◌, nat_eqb,
  if◌then◌else◌,
}
use flynn_controller.Strings.{remove_all}
use flynn_controller.Routing.{get_method, post_method, put_method, delete_method}

-- A call of a method, with the identifiers that it puts into the path.
pub data Call : Type 0 where
  create_artifact_call create_release_call create_app_call create_provider_call : Call
  provision_resource_call : Text → Call
  put_resource_call : Text → Text → Call
  put_formation_call : Text → Text → Call
  set_app_release_call get_app_release_call : Text → Call
  route_list_call create_route_call : Text → Call
  get_formation_call : Text → Text → Call
  get_release_call get_artifact_call get_app_call : Text → Call
  get_job_log_call : Text → Text → Call
  run_job_attached_call run_job_detached_call job_list_call : Text → Call
  key_list_call create_key_call : Call
  delete_key_call : Text → Call
  provider_list_call : Call

abbrev pub app_path : Text → Text → Text
app_path app rest = codes "/apps/" ++ app ++ rest

-- The method and the path; a call with a blank identifier may be refused.
unfoldable pub request_of : Call → Option (Text × Text)
unfolding remove_all list_eqb
request_of create_artifact_call = some (post_method, codes "/artifacts")
request_of create_release_call = some (post_method, codes "/releases")
request_of create_app_call = some (post_method, codes "/apps")
request_of create_provider_call = some (post_method, codes "/providers")
request_of (provision_resource_call provider) =
    if provider == []
    then none
    else some (post_method, codes "/providers/" ++ provider ++ codes "/resources")
request_of (put_resource_call provider id) =
    if id == [] || provider == []
    then none
    else some (put_method, codes "/providers/" ++ provider ++ (codes "/resources/" ++ id))
request_of (put_formation_call app release) =
    if app == [] || release == []
    then none
    else some (put_method, app_path app (codes "/formations/" ++ release))
request_of (set_app_release_call app) = some (put_method, app_path app (codes "/release"))
request_of (get_app_release_call app) = some (get_method, app_path app (codes "/release"))
request_of (route_list_call app) = some (get_method, app_path app (codes "/routes"))
request_of (create_route_call app) = some (post_method, app_path app (codes "/routes"))
request_of (get_formation_call app release) =
    some (get_method, app_path app (codes "/formations/" ++ release))
request_of (get_release_call id) = some (get_method, codes "/releases/" ++ id)
request_of (get_artifact_call id) = some (get_method, codes "/artifacts/" ++ id)
request_of (get_app_call id) = some (get_method, codes "/apps/" ++ id)
request_of (get_job_log_call app job) =
    some (get_method, app_path app (codes "/jobs/" ++ job ++ codes "/log"))
request_of (run_job_attached_call app) = some (post_method, app_path app (codes "/jobs"))
request_of (run_job_detached_call app) = some (post_method, app_path app (codes "/jobs"))
request_of (job_list_call app) = some (get_method, app_path app (codes "/jobs"))
request_of key_list_call = some (get_method, codes "/keys")
request_of create_key_call = some (post_method, codes "/keys")
request_of (delete_key_call id) = some (delete_method, codes "/keys/" ++ remove_all b':' id)
request_of provider_list_call = some (get_method, codes "/providers")

-- what the connection makes of a request: `none` is an error of NewRequest or Do, and else there is
-- a status and a body
pub record Connection (W : Type 0) : Type 0 where
  -- by method, path, content type, Authorization header and payload
  pub exchange : Text → Text → Text → Text → Option Text → W → Option (ℕ × Text) × W

-- the argument `in`; a value may fail to encode
pub data Payload : Type 0 where
  nothing : Payload
  stream : Text → Payload
  encoded : Option Text → Payload

-- the answer and the error of rawReq; ErrNotFound is `missing`
pub data Answer (A : Type 0) : Type 0 where
  unsent missing undecoded : Answer A
  unexpected : ℕ → Answer A
  received : A → Answer A

-- "Basic " + base64(":" + key), as SetBasicAuth("", key) writes it, too
unfoldable pub authorization : (Text → Text) → Text → Text
authorization encode key = codes "Basic " ++ encode (b':' ∷ key)

abbrev pub content_type_of : Text → Text
content_type_of [] = codes "application/json"
content_type_of (c ∷ s) = c ∷ s

unfoldable pub answered : Option (ℕ × Text) → Answer Text
answered none = unsent
answered (some (status, body)) =
    if nat_eqb status 404
    then missing
    else if nat_eqb status 200
    then received body
    else unexpected status

-- json.NewDecoder(res.Body).Decode(out)
unfoldable pub decode_into : {A : Type 0} → (Text → Option A) → Answer Text → Answer A
decode_into decode unsent = unsent
decode_into decode missing = missing
decode_into decode undecoded = undecoded
decode_into decode (unexpected status) = unexpected status
decode_into decode (received body) = elim (decode body) [ none ↦ undecoded | some a ↦ received a ]

module _ {W : Type 0} (connection : Connection W) (encode : Text → Text) (key : Text) where
  unfoldable pub sent : Text → Text → Text → Option Text → W → Answer Text × W
  unfolding answered authorization
  sent method path content_type payload w =
      let (answer, w1) =
        connection.exchange method path (content_type_of content_type) (authorization encode key)
          payload w in
      (answered answer, w1)

  -- rawReq, up to the decoding of the body
  unfoldable pub raw_req : Text → Text → Text → Payload → W → Answer Text × W
  unfolding sent
  raw_req method path content_type nothing w = sent method path content_type none w
  raw_req method path content_type (stream s) w = sent method path content_type (some s) w
  raw_req method path content_type (encoded none) w = (unsent, w)
  raw_req method path content_type (encoded (some s)) w = sent method path content_type (some s) w

  -- send and get, where a body is decoded
  unfoldable pub send : {A : Type 0} → (Text → Option A) → Text → Text → Payload → W → Answer A × W
  unfolding raw_req decode_into
  send decode method path payload w =
      let (got, w1) = raw_req method path [] payload w in (decode_into decode got, w1)
