-- ===== src/Tests/Scheduling.antt =====
-- scheduler/main.go on small inputs: one host, whose jobs have identifiers drawn from a counter.
use flynn_controller.Prelude.{
  ℕ, suc, ◌≡◌, ◌≢◌, refl, Bool, true, false, none, some, [], ◌∷◌, Text, codes, text_eq, pair_eq,
  list_eqb, ltb, ap, sym, subst, ◌≤◌, arith, pos, inl, inr,
}
use flynn_controller.Prelude.Map
use flynn_controller.Prelude.Map.{Map, IsUnique, get-entry}
use flynn_controller.Types.{Release, Artifact, Host, HostJob}
use flynn_controller.Utils.{Url, docker_image, attr_app, attr_release, attr_type, read, job_config}
use flynn_controller.Scheduler.State.{
  JobKey, Job, Services, State, Outcome, done, panic, nil_dereference,
}
use flynn_controller.Scheduler.JobTypes.{jobs_of}
use flynn_controller.Scheduler.HostClients
use flynn_controller.Scheduler.Method.{
  rectify, register, unregister, submit, place, stop, pick_host,
}
use flynn_controller.Scheduler.Context.{new_context}
use flynn_controller.Scheduler.Sync.{sync_cluster}
use flynn_controller.Scheduler.Counts.{count, jobs_in}
use flynn_controller.Scheduler.Adding.{Answers}
use flynn_controller.Scheduler.Placement.{AreKeyed, jobs_tagged, pick_host_least}
use flynn_controller.Scheduler.Tracking.{IsTracked, rectify-IsTracked}
use flynn_controller.Scheduler.Induction.{Holds}
use flynn_controller.Scheduler.Converging.{IsReady, target}
use flynn_controller.Scheduler.Rectify.{IsReady-of_entries, rectify_converges}
use flynn_controller.Scheduler.Idle.{rectify_twice}
use flynn_controller.Scheduler.SyncLaws.{Finds, sync_cluster_enters}

abbrev pub app : Text
app = codes "a"

abbrev pub web : Text
web = codes "web"

abbrev old : Text
old = codes "old"

abbrev pub release : Release
release = record {
  id = codes "r";
  artifact_id = codes "i";
  env = [];
  processes = [];
  created_at = none;
}

abbrev pub artifact : Artifact
artifact = record {
  id = codes "i";
  type = codes "docker";
  uri = codes "docker:///x";
  created_at = none;
}

abbrev url : Url
url = record { scheme = codes "docker"; host = []; path = codes "/x"; tag = [] }

abbrev running : HostJob
running = record {
  id = codes "9";
  tcp_ports = pos 0;
  attributes = (attr_app, app) ∷ (attr_release, codes "r") ∷ (attr_type, web) ∷ [];
  config = record {
    cmd = [];
    env = [];
    image = [];
    volumes = [];
    exposed_ports = [];
    attach_stdin = false;
    attach_stdout = false;
    attach_stderr = false;
    tty = false;
    open_stdin = false;
    stdin_once = false;
  };
  host_config = none;
}

abbrev host1 : Host
host1 = record { id = codes "h1"; jobs = running ∷ [] }

abbrev host2 : Host
host2 = record { id = codes "h2"; jobs = [] }

abbrev hosts : Map Text Host
hosts = (codes "h1", host1) ∷ (codes "h2", host2) ∷ []

-- The world is the next identifier.
abbrev pub services : Services ℕ Unit
services = record {
  parse_url = λ uri. some url;
  random_job_id = λ w. (w ∷ [], suc w);
  list_hosts = λ w. (hosts, false, w);
  add_jobs = λ host job w. (false, w);
  dial_host = λ id w. (some tt, w);
  stop_job = λ client id w. (false, w);
  get_release = λ id w. (some release, w);
  get_artifact = λ id w. (some artifact, w);
  get_formation = λ app release w. (
    some (record {
      app_id = app;
      release_id = release;
      processes = (web, pos 1) ∷ [];
      created_at = none;
      updated_at = none;
    }),
    w,
  );
}

abbrev pub issued : ℕ → Text → Bool
issued w [] = false
issued w (x ∷ []) = ltb x w
issued w (x ∷ y ∷ id) = false

issued-suc : (w : ℕ) (id : Text) → issued w id ≡ true → issued (suc w) id ≡ true
issued-suc w [] h = cc
issued-suc w (x ∷ []) h = ground arith
issued-suc w (x ∷ y ∷ id) h = cc

pub answers : Answers services issued
answers = record {
  listed = λ w e. cc;
  accepted = λ host job w. refl;
  fresh = λ w. ground arith;
  drawn = λ w. ground arith;
  keeps_draw = issued-suc;
  keeps_list = λ w id h. h;
  keeps_add = λ host job w id h. h;
  keeps_stop = λ c job w id h. h;
}

abbrev job_of : Text → Job
job_of t = record { type = t; formation = some 0 }

-- Two jobs of a type that is gone, and one of the three that the formation asks for.
abbrev pub start : State ℕ Unit
start = record {
  addr = 0;
  self = record {
    app_id = app;
    release = release;
    artifact = artifact;
    processes = (web, pos 3) ∷ [];
    jobs =
        (web, ((codes "h1", 1 ∷ []), job_of web) ∷ [])
        ∷ (old, ((codes "h1", 2 ∷ []), job_of old) ∷ ((codes "h2", 3 ∷ []), job_of old) ∷ [])
        ∷ [];
  };
  jobs = ((codes "h1", 1 ∷ []), job_of web) ∷ [];
  hosts = (codes "h1", some tt) ∷ (codes "h2", some tt) ∷ [];
  watches = [];
  world = 4;
}

pub image : docker_image services.parse_url start.self.artifact.uri ≡ some (codes "x")
unfolding docker_image
image = refl

web_ready :
    (k : JobKey) (j : Job)
    → Map.get k (((codes "h1", 1 ∷ []), job_of web) ∷ []) ≡ some j
    → issued 4 k.1 ≡ true
web_ready k j h = elim (get-entry k j _ h) [
  | inl e ↦ ap (λ (p : JobKey × Job). issued 4 p.0.1) e
  | inr i ↦ absurd i
]

old_ready :
    (k : JobKey) (j : Job)
    → Map.get k (((codes "h1", 2 ∷ []), job_of old) ∷ ((codes "h2", 3 ∷ []), job_of old) ∷ [])
      ≡ some j
    → issued 4 k.1 ≡ true
old_ready k j h = elim (get-entry k j _ h) [
  | inl e ↦ ap (λ (p : JobKey × Job). issued 4 p.0.1) e
  | inr (inl e) ↦ ap (λ (p : JobKey × Job). issued 4 p.0.1) e
  | inr (inr i) ↦ absurd i
]

pub start-IsReady : (t : Text) → IsReady services issued answers t start
unfolding Map.get list_eqb HostClients.get
start-IsReady = IsReady-of_entries services issued answers start (
  ((refl, tt), web_ready, ((tt, refl), tt)),
  (((refl, (refl, tt)), old_ready, ((tt, refl), ((tt, refl), tt))), tt),
)

rectify_converges_example :
    (s' : State ℕ Unit) × (rectify services start ≡ done s')
    × ((t : Text) → count t s' ≡ target t start.self.processes)
unfolding Map.get list_eqb
rectify_converges_example =
    rectify_converges services issued answers (codes "x") start image (refl, tt) start-IsReady

rectify_twice_example :
    (s' : State ℕ Unit) × (rectify services start ≡ done s') × (rectify services s' ≡ done s')
unfolding Map.get list_eqb
rectify_twice_example =
    rectify_twice services issued answers (codes "x") start image (refl, tt) start-IsReady

pub program : Unit {0}
unfolding rectify job_config docker_image pick_host place stop jobs_of register unregister submit
    Map.has Map.delete Map.get list_eqb HostClients.get
program = tt

abbrev count_after : Text → Outcome (State ℕ Unit) → ℕ
count_after t (done s) = count t s
count_after t (panic e) = 99

-- Two jobs of the type that the formation asks for are started, and those of the other stopped.
rectify_run :
    (count_after web (rectify services start) ≡ 3) × (count_after old (rectify services start) ≡ 0)
unfolding program
rectify_run = (refl, refl)

start_panics : rectify services (record start { hosts = [] }) ≡ panic nil_dereference
unfolding program
start_panics = refl

hosts-AreKeyed : AreKeyed hosts
hosts-AreKeyed = (refl, (refl, tt))

pick_host_least_example :
    (h : Host) × (pick_host start.self web hosts ≡ done h)
    × (Map.get h.id hosts ≡ some h)
    × ((k : Text) (g : Host)
        → Map.get k hosts ≡ some g
        → jobs_tagged start.self.app_id start.self.release.id web h.jobs
          ≤ jobs_tagged start.self.app_id start.self.release.id web g.jobs)
unfolding Map.get list_eqb
pick_host_least_example =
    pick_host_least start.self web hosts (λ e. cc) hosts-AreKeyed (refl, (refl, tt)) (λ e. cc)

start-IsTracked : IsTracked start
unfolding Map.get list_eqb jobs_of
start-IsTracked = record {
  owned = λ k j h o. elim (get-entry k j start.jobs h) [
    | inl e ↦
        subst (λ (p : JobKey × Job). Map.get p.0 (jobs_in p.1.type start) ≡ some p.1) (sym e) refl
    | inr i ↦ absurd i
  ];
  unique = λ t. (start-IsReady t).unique;
}

rectify-IsTracked_example : Holds IsTracked (rectify services start)
rectify-IsTracked_example = rectify-IsTracked services start start-IsTracked

finds : Finds services
finds = record {
  releases = λ id w e. cc;
  artifacts = λ id w e. cc;
  formations = λ app release w e. cc;
}

sync_cluster_enters_example :
    Map.get (codes "h1", codes "9") (sync_cluster services (new_context 0)).jobs ≢ none
unfolding Map.get list_eqb read
sync_cluster_enters_example =
    sync_cluster_enters services (new_context 0) (codes "h1") host1 running finds refl (inl refl)
      ((λ e. cc), (λ e. cc), (λ e. cc))
