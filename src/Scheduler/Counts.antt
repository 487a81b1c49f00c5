-- ===== src/Scheduler/Counts.antt =====
-- How the methods of scheduler/main.go change the number of jobs of each process type.
use flynn_controller.Prelude.{
  ℕ, ◌≡◌, ◌≢◌, refl, ◌∙◌, none, some, List, Text, text_eq, pair_eq, ◌==◌, eq_iff, length, arith,
  if◌then◌else◌,
}
use flynn_controller.Prelude.Map
use flynn_controller.Prelude.Map.{
  Map, IsUnique, put-put, length-put, length-delete, put-IsUnique, delete-IsUnique, get-put,
  get-delete,
}
use flynn_controller.Scheduler.State.{JobKey, Job, State}
use flynn_controller.Scheduler.JobTypes
use flynn_controller.Scheduler.JobTypes.{jobs_of, jobs_of-assign, jobs_of-remove}
use flynn_controller.Scheduler.Method.{register, unregister}

module _ {W C : Type 0} where
  abbrev pub jobs_in : Text → State W C → Map JobKey Job
  jobs_in t s = jobs_of t s.self.jobs

  -- len(f.jobs[t])
  abbrev pub count : Text → State W C → ℕ
  count t s = length (jobs_in t s)

  -- Nothing changes but the jobs of one type, the job map, the watches and the world.
  pub record Leaves (name : Text) (s s' : State W C) : Type 0 where
    pub others : (t : Text) → t ≢ name → jobs_in t s' ≡ jobs_in t s
    pub hosts : s'.hosts ≡ s.hosts
    pub addr : s'.addr ≡ s.addr
    pub app_id : s'.self.app_id ≡ s.self.app_id
    pub release : s'.self.release ≡ s.self.release
    pub artifact : s'.self.artifact ≡ s.self.artifact
    pub processes : s'.self.processes ≡ s.self.processes

  pub Leaves-refl : (name : Text) (s : State W C) → Leaves name s s
  Leaves-refl name s = record {
    others = λ t h. refl;
    hosts = refl;
    addr = refl;
    app_id = refl;
    release = refl;
    artifact = refl;
    processes = refl;
  }

  pub Leaves-trans :
      {name : Text} {s t u : State W C} → Leaves name s t → Leaves name t u → Leaves name s u
  Leaves-trans p q = record {
    others = λ x h. q.others x h ∙ p.others x h;
    hosts = q.hosts ∙ p.hosts;
    addr = q.addr ∙ p.addr;
    app_id = q.app_id ∙ p.app_id;
    release = q.release ∙ p.release;
    artifact = q.artifact ∙ p.artifact;
    processes = q.processes ∙ p.processes;
  }

  pub Leaves-world :
      (name : Text) (s : State W C) (watches : List Text) (w : W)
      → Leaves name s (record s { watches = watches; world = w })
  Leaves-world name s watches w = record {
    others = λ t h. refl;
    hosts = refl;
    addr = refl;
    app_id = refl;
    release = refl;
    artifact = refl;
    processes = refl;
  }

  -- The job that `register` enters in both maps.
  abbrev pub registered : Text → State W C → Job
  registered name s = record { type = name; formation = some s.addr }

  pub jobs_in-register :
      (name host id t : Text) (s : State W C)
      → jobs_in t (register name host id s)
        ≡ (if name == t then Map.put (host, id) (registered name s) (jobs_in t s) else jobs_in t s)
  unfolding register
  jobs_in-register name host id t s =
      let first : Job = record { type = name; formation = none } in
      let once = JobTypes.assign name (host, id) first s.self.jobs in
      ground (
        arith,
        jobs_of-assign name t (host, id) (registered name s) once,
        jobs_of-assign name t (host, id) first s.self.jobs,
        put-put (host, id) (registered name s) first (jobs_in t s),
      )

  pub jobs_in-unregister :
      (name host id t : Text) (s : State W C)
      → jobs_in t (unregister name host id s)
        ≡ (if name == t then Map.delete (host, id) (jobs_in t s) else jobs_in t s)
  unfolding unregister
  jobs_in-unregister name host id t s = jobs_of-remove name t host id s.self.jobs

  pub Leaves-register :
      (name host id : Text) (s : State W C) → Leaves name s (register name host id s)
  unfolding register
  Leaves-register name host id s = record {
    others = λ t h. ground (arith, jobs_in-register name host id t s, eq_iff name t);
    hosts = refl;
    addr = refl;
    app_id = refl;
    release = refl;
    artifact = refl;
    processes = refl;
  }

  pub Leaves-unregister :
      (name host id : Text) (s : State W C) → Leaves name s (unregister name host id s)
  unfolding unregister
  Leaves-unregister name host id s = record {
    others = λ t h. ground (arith, jobs_in-unregister name host id t s, eq_iff name t);
    hosts = refl;
    addr = refl;
    app_id = refl;
    release = refl;
    artifact = refl;
    processes = refl;
  }
