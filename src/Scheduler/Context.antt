-- ===== src/Scheduler/Context.antt =====
-- The `context` of scheduler/main.go, its goroutines, and the loops that feed it: the stream of
-- formations and the events of a host.
use flynn_controller.Prelude.{
  Bool, true, Option, none, some, List, [], ◌∷◌, ◌++◌, map, Text, codes, text_eq, pair_eq, ◌==◌,
  ◌&&◌, not, length, get_elem?, set, ℤ, if◌then◌else◌,
}
use flynn_controller.Prelude.Map.{Map}
use flynn_controller.Types.{App, Release, Artifact}
use flynn_controller.Scheduler.State.{
  JobKey, Job, FormationKey, Addr, Formation, Services, State, nil_dereference, Outcome, done,
  panic, ◌>>=◌,
}
use flynn_controller.Scheduler.JobMap
use flynn_controller.Scheduler.HostClients
use flynn_controller.Scheduler.Formations
use flynn_controller.Scheduler.Method.{rectify, remove_job}

-- What a `go` statement starts. `rectify` runs with the formation's lock if the flag is true.
pub data Task : Type 0 where
  rectify_formation : (locked : Bool) → Addr → Task
  remove_from : Option Addr → Text → Text → Text → Task
  watch : Text → Task

-- `heap` holds the formations at their addresses. `tasks` are the goroutines that were started.
pub record Context (W C : Type 0) : Type 0 where
  pub formations : Map FormationKey Addr
  pub heap : List Formation
  pub hosts : Map Text (Option C)
  pub jobs : Map JobKey Job
  pub tasks : List Task
  pub world : W

-- newContext
abbrev pub new_context : {W C : Type 0} → W → Context W C
new_context w = record { formations = []; heap = []; hosts = []; jobs = []; tasks = []; world = w }

-- What the stream of formations sends: `expandFormation` of formation.go sets all the pointers of
-- an expanded formation, and only the sentinel leaves them nil.
pub data StreamItem : Type 0 where
  sentinel : StreamItem
  expanded : App → Release → Artifact → Map Text ℤ → StreamItem

-- NewFormation, of the parts of the expanded formation that it reads
unfoldable pub new_formation : Text → Release → Artifact → Map Text ℤ → Formation
new_formation app_id release artifact processes = record {
  app_id = app_id;
  release = release;
  artifact = artifact;
  processes = processes;
  jobs = [];
}

module _ {W C : Type 0} where
  -- The address of a new formation.
  unfoldable pub alloc : Formation → Context W C → Context W C × Addr
  alloc f c = (record c { heap = c.heap ++ f ∷ [] }, length c.heap)

  -- A call of a method of the formation at an address, under the formation's lock.
  unfoldable pub call :
      Addr → (State W C → Outcome (State W C)) → Context W C → Outcome (Context W C)
  call a method c = elim (get_elem? c.heap a) [
    | none ↦ panic nil_dereference
    | some f ↦
        method (record {
          addr = a;
          self = f;
          jobs = c.jobs;
          hosts = c.hosts;
          watches = [];
          world = c.world;
        })
        >>= λ s. done (record c {
          heap = set c.heap a s.self;
          jobs = s.jobs;
          tasks = c.tasks ++ map watch s.watches;
          world = s.world;
        })
  ]

  -- SetProcesses
  unfoldable pub set_processes : Map Text ℤ → State W C → Outcome (State W C)
  set_processes processes s = done (record s { self = record s.self { processes = processes } })

  abbrev pub spawn : Task → Context W C → Context W C
  spawn t c = record c { tasks = c.tasks ++ t ∷ [] }

  -- The body of the loop of watchFormations.
  unfoldable pub receive : StreamItem → Context W C → Outcome (Context W C)
  unfolding Formations.get Formations.add Formations.key call set_processes alloc new_formation
  receive sentinel c = done c
  receive (expanded app release artifact processes) c =
      elim (Formations.get (app.id, release.id) c.formations) [
        | none ↦
            let f = new_formation app.id release artifact processes in
            let (c1, a) = alloc f c in
            let (formations, kept) = Formations.add (Formations.key f) a c1.formations in
            done (spawn (rectify_formation true a) (record c1 { formations = formations }))
        | some f ↦
            call f (set_processes processes) c >>= λ c1. done (spawn (rectify_formation true f) c1)
      ]

  -- `c.hosts.Add(id)`: a false result ends watchHost at once.
  unfoldable pub watch_start : Text → Context W C → Context W C × Bool
  unfolding HostClients.add
  watch_start id c =
      let (hosts, added) = HostClients.add id c.hosts in (record c { hosts = hosts }, added)

  -- `c.DialHost` and `c.hosts.Set`. The error is not looked at, and a nil connection panics when its
  -- events are asked for.
  unfoldable pub watch_dial : Services W C → Text → Context W C → Outcome (Context W C)
  unfolding HostClients.set
  watch_dial services id c =
      let (client, w) = services.dial_host id c.world in
      let c1 : Context W C = record c { hosts = HostClients.set id client c.hosts; world = w } in
      elim client [ none ↦ panic nil_dereference | some connection ↦ done c1 ]

  -- The body of the loop over the events of a host.
  unfoldable pub watch_event : Text → Text → Text → Context W C → Context W C
  unfolding JobMap.get JobMap.remove
  watch_event id event job_id c =
      if not (event == codes "error") && not (event == codes "stop")
      then c
      else (elim (JobMap.get id job_id c.jobs) [
        | none ↦ c
        | some job ↦ record c {
          jobs = JobMap.remove id job_id c.jobs;
          tasks = c.tasks ++ remove_from job.formation job.type id job_id ∷ [];
        }
      ])

  -- The deferred `c.hosts.Remove(id)` when the stream of events ends.
  unfoldable pub watch_end : Text → Context W C → Context W C
  unfolding HostClients.remove
  watch_end id c = record c { hosts = HostClients.remove id c.hosts }

-- A goroutine other than watchHost, run to its end.
unfoldable pub run_task : {W C : Type 0} → Services W C → Task → Context W C → Outcome (Context W C)
unfolding call
run_task services (rectify_formation locked a) c = call a (rectify services) c
run_task services (remove_from none typ host id) c = panic nil_dereference
run_task services (remove_from (some a) typ host id) c = call a (remove_job services typ host id) c
run_task services (watch id) c = done c
