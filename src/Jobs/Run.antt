-- ===== src/Jobs/Run.antt =====
-- jobs.go, runJob: the handler that starts one job of an application. The repositories of releases
-- and artifacts are functions that answer `none` for an error; `accept` is the request's header.
use flynn_controller.Prelude.{
  Bool, true, Option, none, some, [], ◌∷◌, Text, codes, text_eq, list_eqb, ◌==◌, ◌||◌,
  if◌then◌else◌, pos,
}
use flynn_controller.Prelude.Map.{Map}
use flynn_controller.Strings.{contains}
use flynn_controller.Types.{App, Release, Artifact, Job, NewJob, Host, HostJob, AttachReq}
use flynn_controller.Utils.{ParseUrl, attr_app, attr_release, docker_image, format_env}
use flynn_controller.Http.{Response, json, header}
use flynn_controller.Jobs.{Cluster, job_id}

unfoldable pub one_off_job : App → Release → NewJob → Bool → Text → Text → HostJob
unfolding format_env
one_off_job app release new attach image id = record {
  id = id;
  tcp_ports = pos 0;
  attributes = (attr_app, app.id) ∷ (attr_release, release.id) ∷ [];
  config = record {
    cmd = new.cmd;
    env = format_env (release.env ∷ new.env ∷ []);
    image = image;
    volumes = [];
    exposed_ports = [];
    attach_stdin = attach;
    attach_stdout = true;
    attach_stderr = true;
    tty = new.tty;
    open_stdin = attach;
    stdin_once = attach;
  };
  host_config = none;
}

-- `for hostID = range hosts { break }`: the first key in the order of iteration
unfoldable pub first_host : Map Text Host → Text
first_host [] = []
first_host ((k, h) ∷ hosts) = k

abbrev pub accepts_attach : Text → Bool
accepts_attach accept = contains (codes "application/vnd.flynn.attach") accept

abbrev pub attach_request : NewJob → Text → AttachReq
attach_request new id = record {
  job_id = id;
  flags = codes "stdout" ∷ codes "stderr" ∷ codes "stdin" ∷ codes "stream" ∷ [];
  height = new.lines;
  width = new.columns;
}

abbrev pub started : NewJob → Text → Text → Job
started new host id = record {
  id = job_id host id;
  type = [];
  release_id = new.release_id;
  cmd = new.cmd;
}

module _ {W C S : Type 0} (cluster : Cluster W C S) where
  unfoldable pub run_detached : NewJob → Text → HostJob → W → Response Job × W
  run_detached new host job w =
      let (failed, w1) = cluster.add_jobs host job w in
      if failed then (header 500, w1) else (json 200 (some (started new host job.id)), w1)

  -- from AddJobs on, with the stream attached
  unfoldable pub run_stream : S → Text → HostJob → W → Response Job × W
  run_stream stream host job w =
      let (failed, w1) = cluster.add_jobs host job w in
      if failed
      then (header 500, w1)
      else (let (lost, w2) = cluster.attach_wait stream w1 in
          if lost then (header 500, w2) else (header 101, cluster.copy_both stream w2))

  -- the branches under `if attach`; what is deferred runs in reverse
  unfoldable pub run_attached : NewJob → Text → HostJob → W → Response Job × W
  unfolding run_stream
  run_attached new host job w =
      let (dialled, w1) = cluster.dial_host host w in
      elim dialled [
        | none ↦ (header 500, w1)
        | some c ↦
            let (attached, w2) = cluster.attach c (attach_request new job.id) w1 in
            elim attached [
              | none ↦ (header 500, cluster.close c w2)
              | some stream ↦
                  let (response, w3) = run_stream stream host job w2 in
                  (response, cluster.close c (cluster.close_stream stream w3))
            ]
      ]

  unfoldable pub run_on : Bool → NewJob → Text → HostJob → W → Response Job × W
  unfolding run_detached run_attached
  run_on attach new host job w =
      if attach then run_attached new host job w else run_detached new host job w

  -- what follows ListHosts
  unfoldable pub run_listed : Bool → NewJob → HostJob → Map Text Host × Bool × W → Response Job × W
  unfolding first_host run_on list_eqb
  run_listed attach new job (hosts, failed, w) =
      if failed || first_host hosts == []
      then (header 500, w)
      else run_on attach new (first_host hosts) job w

  -- from RandomJobID on, with the image known
  unfoldable pub run_image : App → Release → NewJob → Bool → Text → W → Response Job × W
  unfolding one_off_job run_listed
  run_image app release new attach image w =
      let (id, w1) = cluster.random_job_id w in
      run_listed attach new (one_off_job app release new attach image id) (cluster.list_hosts w1)

  -- what follows the read of the artifact
  unfoldable pub run_stored :
      ParseUrl → App → Release → NewJob → Bool → Option Artifact × W → Response Job × W
  unfolding run_image docker_image
  run_stored parse app release new attach (none, w) = (header 500, w)
  run_stored parse app release new attach (some artifact, w) =
      elim (docker_image parse artifact.uri) [
        | none ↦ (header 400, w)
        | some image ↦ run_image app release new attach image w
      ]

  -- what follows the read of the release
  unfoldable pub run_found :
      ParseUrl
      → (Text → W → Option Artifact × W)
      → App
      → NewJob
      → Bool
      → Option Release × W
      → Response Job × W
  unfolding run_stored
  run_found parse artifacts app new attach (none, w) = (header 500, w)
  run_found parse artifacts app new attach (some release, w) =
      run_stored parse app release new attach (artifacts release.artifact_id w)

  -- POST /apps/:apps_id/jobs
  unfoldable pub run_job :
      ParseUrl
      → (Text → W → Option Release × W)
      → (Text → W → Option Artifact × W)
      → App
      → NewJob
      → Text
      → W
      → Response Job × W
  unfolding run_found contains
  run_job parse releases artifacts app new accept w =
      run_found parse artifacts app new (accepts_attach accept) (releases new.release_id w)
