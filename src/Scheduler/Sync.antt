-- ===== src/Scheduler/Sync.antt =====
-- `syncCluster` of scheduler/main.go: the jobs that run in the cluster at the start are entered with
-- their formations.
use flynn_controller.Prelude.{
  false, Option, none, some, List, [], ◌∷◌, ◌++◌, map, Text, text_eq, pair_eq, nat_eq, ◌==◌, ◌||◌,
  ℤ, get_elem?, set, if◌then◌else◌,
}
use flynn_controller.Prelude.Map
use flynn_controller.Prelude.Map.{Map}
use flynn_controller.Types.{Release, Artifact, Host, HostJob}
use flynn_controller.Utils.{read, attr_app, attr_release, attr_type}
use flynn_controller.Scheduler.State.{Job, Formation, Addr, Services}
use flynn_controller.Scheduler.JobTypes
use flynn_controller.Scheduler.JobMap
use flynn_controller.Scheduler.Formations
use flynn_controller.Scheduler.Context.{Context, rectify_formation, new_formation, alloc}

-- The local variables of syncCluster. `rectify` is the set of formations that got a job.
pub record Sync (W C : Type 0) : Type 0 where
  pub context : Context W C
  pub releases : Map Text Release
  pub artifacts : Map Text Artifact
  pub rectify : Map Addr (Unit {0})

module _ {W C : Type 0} where
  abbrev pub with_world : W → Sync W C → Sync W C
  with_world w y = record y { context = record y.context { world = w } }

module _ {W C : Type 0} (services : Services W C) where
  -- The release of an identifier, from the local map or from the controller.
  unfoldable pub find_release : Text → Sync W C → Option Release × Sync W C
  find_release id y = elim (Map.get id y.releases) [
    | some release ↦ (some release, y)
    | none ↦
        let (found, w) = services.get_release id y.context.world in
        elim found [
          | none ↦ (none, with_world w y)
          | some release ↦ (
            some release,
            record (with_world w y) { releases = Map.put release.id release y.releases },
          )
        ]
  ]

  unfoldable pub find_artifact : Text → Sync W C → Option Artifact × Sync W C
  find_artifact id y = elim (Map.get id y.artifacts) [
    | some artifact ↦ (some artifact, y)
    | none ↦
        let (found, w) = services.get_artifact id y.context.world in
        elim found [
          | none ↦ (none, with_world w y)
          | some artifact ↦ (
            some artifact,
            record (with_world w y) { artifacts = Map.put artifact.id artifact y.artifacts },
          )
        ]
  ]

  -- NewFormation and `c.formations.Add`
  unfoldable pub enter_formation :
      Text → Release → Artifact → Map Text ℤ → Sync W C → Option Addr × Sync W C
  unfolding new_formation alloc Formations.add Formations.key
  enter_formation app_id release artifact processes y =
      let f = new_formation app_id release artifact processes in
      let (c, a) = alloc f y.context in
      let (formations, kept) = Formations.add (Formations.key f) a c.formations in
      (some kept, record y { context = record c { formations = formations } })

  -- The formation of a job: `none` stands for the `continue` after an error.
  unfoldable pub find_formation : Text → Text → Sync W C → Option Addr × Sync W C
  unfolding Formations.get find_release find_artifact enter_formation
  find_formation app_id release_id y =
      elim (Formations.get (app_id, release_id) y.context.formations) [
        | some a ↦ (some a, y)
        | none ↦
            let (r, y1) = find_release release_id y in
            elim r [
              | none ↦ (none, y1)
              | some release ↦
                  let (a, y2) = find_artifact release.artifact_id y1 in
                  elim a [
                    | none ↦ (none, y2)
                    | some artifact ↦
                        let (f, w) = services.get_formation app_id release_id y2.context.world in
                        elim f [
                          | none ↦ (none, with_world w y2)
                          | some formation ↦
                              enter_formation app_id release artifact formation.processes
                                (with_world w y2)
                        ]
                  ]
            ]
      ]

abbrev pub entered : Text → Addr → Job
entered type a = record { type = type; formation = some a }

-- `f.jobs.Add`, then `j.Formation = f` through the pointer that both maps hold
unfoldable pub add_to : Text → Text → Text → Addr → Formation → Formation
unfolding JobTypes.add
add_to type host id a f =
    let (types, new) = JobTypes.add type host id f.jobs in
    record f { jobs = JobTypes.assign type (host, id) (record new { formation = some a }) types }

unfoldable pub add_at : Text → Text → Text → Addr → List Formation → List Formation
unfolding add_to
add_at type host id a heap = elim (get_elem? heap a) [
  | none ↦ heap
  | some f ↦ set heap a (add_to type host id a f)
]

-- The end of the loop's body, with the formation at `a`.
unfoldable pub enter_job : {W C : Type 0} → Text → Text → Text → Addr → Sync W C → Sync W C
unfolding add_at JobMap.add
enter_job type host id a y = record y {
  context = record y.context {
    heap = add_at type host id a y.context.heap;
    jobs = JobMap.add host id (entered type a) y.context.jobs;
  };
  rectify = Map.put a tt y.rectify;
}

unfoldable pub enter_found : {W C : Type 0} → Text → Text → Text → Option Addr → Sync W C → Sync W C
unfolding enter_job
enter_found type host id none y = y
enter_found type host id (some a) y = enter_job type host id a y

module _ {W C : Type 0} (services : Services W C) where
  -- The body of the loop over the jobs of a host, behind the test of the attributes. The argument
  -- is what `c.jobs.Get` returns.
  unfoldable pub sync_new : Text → Text → Text → Text → Text → Option Job → Sync W C → Sync W C
  unfolding find_formation enter_found
  sync_new app_id release_id type host id (some known) y = y
  sync_new app_id release_id type host id none y =
      let (f, y1) = find_formation services app_id release_id y in enter_found type host id f y1

  unfoldable pub sync_job : Text → HostJob → Sync W C → Sync W C
  unfolding read JobMap.get sync_new
  sync_job host job y =
      let app_id = read attr_app job.attributes in
      let release_id = read attr_release job.attributes in
      let type = read attr_type job.attributes in
      if app_id == [] || release_id == [] || type == []
      then y
      else sync_new app_id release_id type host job.id (JobMap.get host job.id y.context.jobs) y

  unfoldable pub sync_jobs : Text → List HostJob → Sync W C → Sync W C
  unfolding sync_job
  sync_jobs host [] y = y
  sync_jobs host (job ∷ jobs) y = sync_jobs host jobs (sync_job host job y)

  unfoldable pub sync_hosts : Map Text Host → Sync W C → Sync W C
  unfolding sync_jobs
  sync_hosts [] y = y
  sync_hosts ((k, h) ∷ hosts) y = sync_hosts hosts (sync_jobs h.id h.jobs y)

  -- The last loop calls `f.rectify` without the lock of `f`.
  unfoldable pub sync_cluster : Context W C → Context W C
  unfolding sync_hosts
  sync_cluster c =
      let (hosts, failed, w) = services.list_hosts c.world in
      let y = sync_hosts hosts (record {
        context = record c { world = w };
        releases = [];
        artifacts = [];
        rectify = [];
      }) in
      record y.context {
        tasks = y.context.tasks ++ map (rectify_formation false) (Map.keys y.rectify);
      }
