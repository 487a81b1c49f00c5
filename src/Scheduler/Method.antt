-- ===== src/Scheduler/Method.antt =====
-- The methods of `Formation` in scheduler/main.go that run under the formation's lock.
use flynn_controller.Prelude.{
  ℕ, zero, suc, ◌+◌, true, false, Option, none, some, List, [], ◌∷◌, ◌++◌, Text, text_eq, pair_eq,
  ◌==◌, nat_eqb, leb, length, ℤ, pos, negsuc, minus_ℕ, not, ◌||◌, if◌then◌else◌,
}
use flynn_controller.Prelude.Map
use flynn_controller.Prelude.Map.{Map}
use flynn_controller.Types.{Host, HostJob}
use flynn_controller.Utils.{read, attr_app, attr_release, attr_type, job_config}
use flynn_controller.Scheduler.State.{
  JobKey, Job, Formation, Services, State, nil_dereference, index_out_of_range, Outcome, done,
  panic, ◌>>=◌,
}
use flynn_controller.Scheduler.JobTypes
use flynn_controller.Scheduler.JobTypes.{jobs_of}
use flynn_controller.Scheduler.JobMap
use flynn_controller.Scheduler.HostClients

-- jobType
unfoldable pub job_type : Formation → HostJob → Text
job_type f job =
    if not (read attr_app job.attributes == f.app_id)
      || not (read attr_release job.attributes == f.release.id)
    then []
    else read attr_type job.attributes

-- the loop `for _, job := range h.Jobs`, with `hostCounts[h.ID]` as the count
unfoldable pub count_jobs : Formation → Text → List HostJob → ℕ → ℕ
unfolding job_type
count_jobs f name [] count = count
count_jobs f name (job ∷ jobs) count =
    count_jobs f name jobs (if job_type f job == name then count + 1 else count)

-- hostCounts, from the loop over the hosts
unfoldable pub host_counts : Formation → Text → Map Text Host → Map Text ℕ → Map Text ℕ
unfolding count_jobs
host_counts f name [] counts = counts
host_counts f name ((k, h) ∷ hosts) counts =
    host_counts f name hosts (Map.put h.id (count_jobs f name h.jobs 0) counts)

unfoldable pub insert_host : Text × ℕ → List (Text × ℕ) → List (Text × ℕ)
insert_host h [] = h ∷ []
insert_host h (g ∷ sh) = if leb h.1 g.1 then h ∷ g ∷ sh else g ∷ insert_host h sh

-- sort.Sort by the number of jobs. Hosts with equal numbers come in the order of iteration.
unfoldable pub sort_hosts : Map Text ℕ → List (Text × ℕ)
unfolding insert_host
sort_hosts [] = []
sort_hosts (h ∷ counts) = insert_host h (sort_hosts counts)

-- hosts[id], the zero `host.Host` where it is missing
unfoldable pub host_at : Text → Map Text Host → Host
host_at id hosts = elim (Map.get id hosts) [ none ↦ record { id = []; jobs = [] } | some h ↦ h ]

-- The host for one more job of a type: `sh[0]` panics when there is no host.
unfoldable pub pick_host : Formation → Text → Map Text Host → Outcome Host
unfolding host_counts sort_hosts host_at
pick_host f name hosts = elim (sort_hosts (host_counts f name hosts [])) [
  | [] ↦ panic index_out_of_range
  | least ∷ rest ↦ done (host_at least.0 hosts)
]

module _ {W C : Type 0} where
  -- `f.jobs.Add`, then `job.Formation = f` through the pointer that both maps hold, `c.jobs.Add`
  unfoldable pub register : Text → Text → Text → State W C → State W C
  unfolding JobTypes.add JobMap.add
  register name host id s =
      let (types, new) = JobTypes.add name host id s.self.jobs in
      let job : Job = record new { formation = some s.addr } in
      record s {
        self = record s.self { jobs = JobTypes.assign name (host, id) job types };
        jobs = JobMap.add host id job s.jobs;
      }

  -- `f.jobs.Remove` and `c.jobs.Remove`
  unfoldable pub unregister : Text → Text → Text → State W C → State W C
  unfolding JobTypes.remove JobMap.remove
  unregister name host id s = record s {
    self = record s.self { jobs = JobTypes.remove name host id s.self.jobs };
    jobs = JobMap.remove host id s.jobs;
  }

module _ {W C : Type 0} (services : Services W C) where
  -- From the registration of a job on, in the body of the loop of `add`
  unfoldable pub submit : Text → Text → HostJob → State W C → State W C
  unfolding register unregister
  submit name host config s =
      let s1 = register name host config.id s in
      let (failed, w) = services.add_jobs host config s1.world in
      let s2 : State W C = record s1 { world = w } in
      if failed then unregister name host config.id s2 else s2

  -- The body of the loop of `add`. A write through a nil `config` panics.
  unfoldable pub place : Text → Option HostJob → State W C → Outcome (State W C)
  unfolding pick_host submit
  place name none s = panic nil_dereference
  place name (some config) s =
      let (id, w1) = services.random_job_id s.world in
      let (hosts, failed, w2) = services.list_hosts w1 in
      pick_host s.self name hosts >>= λ h. done (
        submit name h.id (record config { id = id })
          (record s { watches = s.watches ++ h.id ∷ []; world = w2 }))

  unfoldable pub place_all : ℕ → Text → Option HostJob → State W C → Outcome (State W C)
  place_all zero name config s = done s
  place_all (suc n) name config s = place name config s >>= λ s'. place_all n name config s'

  -- jobConfig. Only the identifier of the application is set.
  unfoldable pub config_of : Formation → Text → Option HostJob
  config_of f name =
      job_config services.parse_url
        (record {
          id = f.app_id;
          name = [];
          protected = false;
          meta = [];
          created_at = none;
          updated_at = none;
        })
        f.release f.artifact name

  unfoldable pub add : ℕ → Text → State W C → Outcome (State W C)
  unfolding place_all config_of
  add n name s = place_all n name (config_of s.self name) s

  -- The body of the loop of `remove`, up to the count. A call through a nil connection panics.
  unfoldable pub stop : Text → JobKey → State W C → Outcome (State W C)
  unfolding unregister HostClients.get
  stop name (host, id) s = elim (HostClients.get host s.hosts) [
    | none ↦ panic nil_dereference
    | some client ↦
        let (failed, w) = services.stop_job client id s.world in
        done (unregister name host id (record s { world = w }))
  ]

  -- `i` counts the jobs that were stopped so far
  unfoldable pub stop_each : ℕ → ℕ → Text → List JobKey → State W C → Outcome (State W C)
  stop_each n i name [] s = done s
  stop_each n i name (k ∷ ks) s = stop name k s >>= λ s'. elim (nat_eqb (i + 1) n) [
    | true ↦ done s'
    | false ↦ stop_each n (i + 1) name ks s'
  ]

  unfoldable pub remove : ℕ → Text → State W C → Outcome (State W C)
  unfolding stop_each
  remove n name s = stop_each n 0 name (Map.keys (jobs_of name s.self.jobs)) s

  -- The body of the first loop of `rectify`, at the difference of the expected and the actual count
  unfoldable pub adjust : ℤ → Text → State W C → Outcome (State W C)
  unfolding add remove
  adjust (pos zero) t s = done s
  adjust (pos (suc n)) t s = add (suc n) t s
  adjust (negsuc n) t s = remove (suc n) t s

  unfoldable pub update_counts : Map Text ℤ → State W C → Outcome (State W C)
  unfolding adjust
  update_counts [] s = done s
  update_counts ((t, expected) ∷ processes) s =
      adjust (minus_ℕ expected (length (jobs_of t s.self.jobs))) t s >>= λ s'.
      update_counts processes s'

  -- The second loop, over the types that have jobs. Its body only empties the inner maps.
  unfoldable pub remove_types : List Text → State W C → Outcome (State W C)
  remove_types [] s = done s
  remove_types (t ∷ ts) s =
      elim (Map.has t s.self.processes) [
        | true ↦ done s
        | false ↦ remove (length (jobs_of t s.self.jobs)) t s
      ]
      >>= λ s'. remove_types ts s'

  unfoldable pub rectify : State W C → Outcome (State W C)
  unfolding update_counts remove_types
  rectify s = update_counts s.self.processes s >>= λ s'. remove_types (Map.keys s'.self.jobs) s'

  unfoldable pub remove_job : Text → Text → Text → State W C → Outcome (State W C)
  unfolding rectify JobTypes.remove
  remove_job typ host id s =
      rectify (record s { self = record s.self { jobs = JobTypes.remove typ host id s.self.jobs } })
