-- ===== src/Utils.antt =====
-- utils/utils.go. `url.Parse` is a parameter: what the code reads of a parsed URL is `Url`.
use flynn_controller.Prelude.{
  ◌≡◌, true, false, Option, none, some, List, [], ◌∷◌, ◌++◌, Text, codes, ◌==◌, list_eqb, text_eq,
  pos, if◌then◌else◌,
}
use flynn_controller.Prelude.Map
use flynn_controller.Prelude.Map.{Map}
use flynn_controller.Strings.{split, trim_prefix}
use flynn_controller.Types.{App, Release, Artifact, ProcessType, HostJob}

abbrev pub attr_app : Text
attr_app = codes "flynn-controller.app"

abbrev pub attr_release : Text
attr_release = codes "flynn-controller.release"

abbrev pub attr_type : Text
attr_type = codes "flynn-controller.type"

abbrev env_app_id : Text
env_app_id = codes "FLYNN_APP_ID"

abbrev env_release_id : Text
env_release_id = codes "FLYNN_RELEASE_ID"

abbrev env_host_ports : Text
env_host_ports = codes "FLYNN_HOST_PORTS"

-- A read of a map of strings: the zero value where the key is missing.
unfoldable pub read : Text → Map Text Text → Text
unfolding Map.get list_eqb
read k m = elim (Map.get k m) [ none ↦ [] | some v ↦ v ]

-- `for k, v := range e { env[k] = v }`
unfoldable pub merge_into : Map Text Text → Map Text Text → Map Text Text
unfolding Map.put list_eqb
merge_into env [] = env
merge_into env ((k, v) ∷ e) = merge_into (Map.put k v env) e

unfoldable pub merge_env : Map Text Text → List (Map Text Text) → Map Text Text
unfolding merge_into
merge_env env [] = env
merge_env env (e ∷ envs) = merge_env (merge_into env e) envs

unfoldable pub env_lines : Map Text Text → List Text
env_lines [] = []
env_lines ((k, v) ∷ env) = (k ++ codes "=" ++ v) ∷ env_lines env

-- FormatEnv
unfoldable pub format_env : List (Map Text Text) → List Text
unfolding merge_env env_lines
format_env envs = env_lines (merge_env [] envs)

-- `tag` is u.Query().Get("tag"), empty where the query has none.
pub record Url : Type 0 where
  pub scheme : Text
  pub host : Text
  pub path : Text
  pub tag : Text

-- url.Parse; `none` is an error.
abbrev pub ParseUrl : Type 0
ParseUrl = Text → Option Url

abbrev with_tag : Url → Text
with_tag u = if u.tag == [] then u.path else u.path ++ codes ":" ++ u.tag

abbrev without_slash : Url → Text → Text
without_slash u path = if u.host == [] then trim_prefix b'/' path else path

-- DockerImage
unfoldable pub docker_image : ParseUrl → Text → Option Text
unfolding trim_prefix list_eqb
docker_image parse uri = elim (parse uri) [
  | none ↦ none
  | some u ↦
      if u.scheme == codes "docker" then some (u.host ++ without_slash u (with_tag u)) else none
]

abbrev no_process : ProcessType
no_process = record {
  cmd = [];
  env = [];
  ports = record { tcp = pos 0; udp = pos 0 };
  volume = false;
}

-- t := f.Release.Processes[name]
unfoldable pub process_type : Release → Text → ProcessType
unfolding Map.get list_eqb
process_type r name = elim (Map.get name r.processes) [ none ↦ no_process | some t ↦ t ]

tcp_port : Text → Text
tcp_port port = port ++ codes "/tcp"

-- the port bindings that the loop over `ports` leaves, by port
bind_ports : List Text → Map Text (List Text) → Map Text (List Text)
unfolding Map.put list_eqb tcp_port
bind_ports [] bindings = bindings
bind_ports (port ∷ ports) bindings = bind_ports ports (Map.put (tcp_port port) (port ∷ []) bindings)

with_ports : Text → HostJob → HostJob
unfolding bind_ports Map.keys split
with_ports p job =
    if p == []
    then job
    else (let bindings = bind_ports (split b',' p) [] in
        record job {
          host_config = some (record { port_bindings = bindings; publish_all_ports = true });
          config = record job.config { exposed_ports = Map.keys bindings };
        })

base_job : App → Release → Text → Text → HostJob
unfolding process_type format_env
base_job app release name image =
    let t = process_type release name in
    record {
      id = [];
      tcp_ports = t.ports.tcp;
      attributes = (attr_app, app.id) ∷ (attr_release, release.id) ∷ (attr_type, name) ∷ [];
      config = record {
        cmd = t.cmd;
        env =
            format_env (
              release.env
              ∷ t.env
              ∷ ((env_app_id, app.id) ∷ (env_release_id, release.id) ∷ [])
              ∷ []);
        image = image;
        volumes = if t.volume then codes "/data" ∷ [] else [];
        exposed_ports = [];
        attach_stdin = false;
        attach_stdout = false;
        attach_stderr = false;
        tty = false;
        open_stdin = false;
        stdin_once = false;
      };
      host_config = none;
    }

-- the job of an artifact whose image is known
unfoldable pub image_job : App → Release → Text → Text → HostJob
unfolding base_job with_ports read process_type
image_job app release name image =
    with_ports (read env_host_ports (process_type release name).env)
      (base_job app release name image)

-- JobConfig, of the three parts of the expanded formation that it reads
unfoldable pub job_config : ParseUrl → App → Release → Artifact → Text → Option HostJob
unfolding image_job
job_config parse app release artifact name = elim (docker_image parse artifact.uri) [
  | none ↦ none
  | some image ↦ some (image_job app release name image)
]

pub job_config_of_image :
    (parse : ParseUrl) (app : App) (release : Release) (artifact : Artifact) (name image : Text)
    → docker_image parse artifact.uri ≡ some image
    → job_config parse app release artifact name ≡ some (image_job app release name image)
unfolding job_config
job_config_of_image parse app release artifact name image h = rw (h, job_config)
