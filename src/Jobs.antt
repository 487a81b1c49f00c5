-- ===== src/Jobs.antt =====
-- jobs.go: the jobs of an application in the cluster. The handlers get the cluster client as a
-- record of operations over the state `W` of the world; a true flag is an error.
pub mod Ids
pub mod Listing
pub mod Run
pub mod Started
pub mod Log
use flynn_controller.Prelude.{
  Bool, true, false, Option, none, some, List, [], ◌∷◌, ◌++◌, Text, codes, text_eq, list_eqb, ◌==◌,
  ◌||◌, if◌then◌else◌, pos,
}
use flynn_controller.Prelude.Map
use flynn_controller.Prelude.Map.{Map}
use flynn_controller.Strings.{split_n2, contains}
use flynn_controller.Types.{App, Job, Host, HostJob, AttachReq}
use flynn_controller.Utils.{read, attr_app, attr_release, attr_type}
use flynn_controller.Http.{Response, json, header, silent}

-- The parts of strings.SplitN(id, "-", 2).
job_id_parts : List Text → Text × Text
unfolding list_eqb
job_id_parts (host ∷ job ∷ []) = if host == [] || job == [] then ([], []) else (host, job)
job_id_parts _ = ([], [])

unfoldable pub parse_job_id : Text → Text × Text
unfolding job_id_parts split_n2
parse_job_id id = job_id_parts (split_n2 b'-' id)

-- h.ID + "-" + j.ID
abbrev pub job_id : Text → Text → Text
job_id host job = host ++ b'-' ∷ job

unfoldable pub listed_job : Text → HostJob → Job
unfolding read
listed_job host j =
    let type = read attr_type j.attributes in
    record {
      id = job_id host j.id;
      type = type;
      release_id = read attr_release j.attributes;
      cmd = if type == [] then j.config.cmd else [];
    }

unfoldable pub jobs_on_host : App → Text → List HostJob → List Job
unfolding listed_job
jobs_on_host app host [] = []
jobs_on_host app host (j ∷ jobs) =
    let rest = jobs_on_host app host jobs in
    if read attr_app j.attributes == app.id then listed_job host j ∷ rest else rest

unfoldable pub jobs_of_hosts : App → Map Text Host → List Job
unfolding jobs_on_host
jobs_of_hosts app [] = []
jobs_of_hosts app ((k, h) ∷ hosts) = jobs_on_host app h.id h.jobs ++ jobs_of_hosts app hosts

-- What the handlers use of the cluster client and of its connections `C` and streams `S`.
pub record Cluster (W C S : Type 0) : Type 0 where
  pub list_hosts : W → Map Text Host × Bool × W
  pub dial_host : Text → W → Option C × W
  pub add_jobs : Text → HostJob → W → Bool × W
  pub stop_job : C → Text → W → Bool × W
  pub attach : C → AttachReq → W → Option S × W
  -- the function that Attach returns beside the stream
  pub attach_wait : S → W → Bool × W
  -- the hijacked connection of the client and the stream, copied both ways until both ends
  pub copy_both : S → W → W
  pub close : C → W → W
  pub close_stream : S → W → W
  pub random_job_id : W → Text × W

module _ {W C S : Type 0} (cluster : Cluster W C S) where
  unfoldable pub job_list : App → W → Response (List Job) × W
  unfolding jobs_of_hosts
  job_list app w =
      let (hosts, failed, w1) = cluster.list_hosts w in
      if failed then (json 500 none, w1) else (json 200 (some (jobs_of_hosts app hosts)), w1)

  -- connectHostMiddleware before a handler, which gets the connection and the job's identifier
  unfoldable pub connect_host :
      {A : Type 0} → (C → Text → W → Response A × W) → Text → W → Response A × W
  unfolding parse_job_id
  connect_host next id w =
      let (host, job) = parse_job_id id in
      if host == []
      then (header 404, w)
      else (let (client, w1) = cluster.dial_host host w in
          elim client [
            | none ↦ (header 500, w1)
            | some c ↦ let (response, w2) = next c job w1 in (response, cluster.close c w2)
          ])

  unfoldable pub kill_job : C → Text → W → Response (Unit {0}) × W
  kill_job c job w =
      let (failed, w1) = cluster.stop_job c job w in
      if failed then (header 500, w1) else (silent, w1)

  -- DELETE /apps/:apps_id/jobs/:jobs_id, behind the lookup of the application
  unfoldable pub delete_job : Text → W → Response (Unit {0}) × W
  unfolding connect_host kill_job
  delete_job = connect_host kill_job
