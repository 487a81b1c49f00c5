-- ===== src/Tests/Jobs.antt =====
-- jobs.go on a cluster of one host: the world is the list of the jobs added, and a connection is
-- the name of the host.
use flynn_controller.Prelude.{
  ◌≡◌, refl, false, Option, none, some, List, [], ◌∷◌, Text, codes, arith, IsIn, pos, text_eq,
}
use flynn_controller.Prelude.Map.{Map}
use flynn_controller.Strings.Laws.{Lacks}
use flynn_controller.Types.{App, Release, Artifact, Job, NewJob, Host, HostJob}
use flynn_controller.Utils.{Url}
use flynn_controller.Sql.{clean_uuid, is_simple}
use flynn_controller.Http.{json, header, silent}
use flynn_controller.Jobs.{Cluster, parse_job_id, jobs_of_hosts, delete_job}
use flynn_controller.Jobs.Listing.{IsRun, jobs_of_hosts_iff}
use flynn_controller.Jobs.Run.{run_job, one_off_job}
use flynn_controller.Jobs.Started.{AnswersId, Starts, run_job-Starts}

abbrev app : App
app = record {
  id = codes "a";
  name = codes "site";
  protected = false;
  meta = [];
  created_at = none;
  updated_at = none;
}

abbrev release : Release
release = record {
  id = codes "r1";
  artifact_id = codes "i";
  env = [];
  processes = [];
  created_at = none;
}

abbrev artifact : Artifact
artifact = record {
  id = codes "i";
  type = codes "docker";
  uri = codes "docker:///x";
  created_at = none;
}

abbrev new : NewJob
new = record {
  release_id = codes "r-1";
  cmd = codes "ls" ∷ [];
  env = [];
  tty = false;
  columns = pos 0;
  lines = pos 0;
}

abbrev url : Url
url = record { scheme = codes "docker"; host = []; path = codes "/x"; tag = [] }

abbrev World : Type 0
World = List (Text × HostJob)

jobs_at : World → List HostJob
jobs_at [] = []
jobs_at ((h, j) ∷ w) = j ∷ jobs_at w

abbrev hosts_of : World → Map Text Host
hosts_of w = (codes "h", record { id = codes "h"; jobs = jobs_at w }) ∷ []

abbrev cluster : Cluster World Text Text
cluster = record {
  list_hosts = λ w. (hosts_of w, false, w);
  dial_host = λ h w. (some h, w);
  add_jobs = λ h j w. (false, (h, j) ∷ w);
  stop_job = λ c j w. (false, []);
  attach = λ c r w. (some c, w);
  attach_wait = λ s w. (false, w);
  copy_both = λ s w. w;
  close = λ c w. w;
  close_stream = λ s w. w;
  random_job_id = λ w. (codes "7-b", w);
}

abbrev releases : Text → World → Option Release × World
releases id w = (some (record release { id = clean_uuid id }), w)

releases-AnswersId : AnswersId cluster releases
releases-AnswersId id w r lower e = ground arith

abbrev artifacts : Text → World → Option Artifact × World
artifacts id w = (some artifact, w)

abbrev answer : Job
answer = record { id = codes "h-7-b"; type = []; release_id = codes "r-1"; cmd = codes "ls" ∷ [] }

abbrev job : HostJob
unfolding one_off_job
job = one_off_job app release new false (codes "x") (codes "7-b")

run :
    run_job cluster (λ s. some url) releases artifacts app new [] []
    ≡ (json 200 (some answer), (codes "h", job) ∷ [])
unfolding run_job clean_uuid
run = refl

-- The list has the identifier of the release without dashes.
abbrev shown : Job
shown = record answer { release_id = codes "r1" }

list : jobs_of_hosts app (hosts_of ((codes "h", job) ∷ [])) ≡ shown ∷ []
unfolding jobs_of_hosts jobs_at one_off_job
list = refl

kill : delete_job cluster (codes "h-7-b") ((codes "h", job) ∷ []) ≡ (silent, [])
unfolding delete_job
kill = refl

kill_unnamed : delete_job cluster (codes "-7") [] ≡ (header 404, [])
unfolding delete_job
kill_unnamed = refl

h-Lacks : Lacks b'-' (codes "h")
h-Lacks = (ground arith, tt)

parses : parse_job_id (codes "h-7-b") ≡ (codes "h", codes "7-b")
unfolding parse_job_id
parses = refl

jobs_of_hosts_iff_example :
    (IsIn shown (jobs_of_hosts app (hosts_of ((codes "h", job) ∷ [])))
      → IsRun app (hosts_of ((codes "h", job) ∷ [])) shown)
    × (IsRun app (hosts_of ((codes "h", job) ∷ [])) shown
        → IsIn shown (jobs_of_hosts app (hosts_of ((codes "h", job) ∷ []))))
jobs_of_hosts_iff_example = jobs_of_hosts_iff app (hosts_of ((codes "h", job) ∷ [])) shown

run_job-Starts_example : Starts cluster app new answer ((codes "h", job) ∷ [])
unfolding is_simple
run_job-Starts_example =
    run_job-Starts cluster (λ s. some url) releases artifacts app new [] [] ((codes "h", job) ∷ [])
      answer releases-AnswersId refl run
