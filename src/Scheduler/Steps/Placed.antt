-- ===== src/Scheduler/Steps/Placed.antt =====
-- The methods of a formation in scheduler/main.go give every job that they enter their formation.
use flynn_controller.Prelude.{
  ℕ, ◌<◌, refl, true, false, Option, none, some, [], ◌∷◌, ◌++◌, Text, text_eq, pair_eq, nat_eq,
  if◌then◌else◌,
}
use flynn_controller.Prelude.Entries.{All-put, All-delete}
use flynn_controller.Types.{Host, HostJob}
use flynn_controller.Scheduler.State.{
  JobKey, Job, Services, State, Outcome, done, panic, nil_dereference, ◌>>=◌,
}
use flynn_controller.Scheduler.JobMap
use flynn_controller.Scheduler.JobTypes
use flynn_controller.Scheduler.HostClients
use flynn_controller.Scheduler.Method.{
  register, unregister, submit, pick_host, place, stop, rectify, remove_job,
}
use flynn_controller.Scheduler.Induction.{Holds, rectify-Holds}
use flynn_controller.Scheduler.Steps.Grounded.{IsOwned, owned, AreOwned}

-- What a method of a formation keeps.
pub record IsPlaced {W C : Type 0} (n : ℕ) (s : State W C) : Type 0 where
  pub placed : s.addr < n
  pub jobs : AreOwned n s.jobs

module _ {W C : Type 0} (services : Services W C) (n : ℕ) where
  register-IsPlaced :
      (name host id : Text) (s : State W C) → IsPlaced n s → IsPlaced n (register name host id s)
  unfolding register JobMap.add
  register-IsPlaced name host id s h = record {
    placed = h.placed;
    jobs =
        All-put (λ (e : JobKey × Job). IsOwned n e.1) (host, id) _ s.jobs
          (owned s.addr refl h.placed) h.jobs;
  }

  unregister-IsPlaced :
      (name host id : Text) (s : State W C) → IsPlaced n s → IsPlaced n (unregister name host id s)
  unfolding unregister JobMap.remove
  unregister-IsPlaced name host id s h = record {
    placed = h.placed;
    jobs = All-delete (λ (e : JobKey × Job). IsOwned n e.1) (host, id) s.jobs h.jobs;
  }

  submit-IsPlaced :
      (name host : Text) (config : HostJob) (s : State W C)
      → IsPlaced n s
      → IsPlaced n (submit services name host config s)
  unfolding submit
  submit-IsPlaced name host config s h =
      let s1 = register name host config.id s in
      let (failed, w) = services.add_jobs host config s1.world in
      let s2 : State W C = record s1 { world = w } in
      let h1 = register-IsPlaced name host config.id s h in
      let h2 : IsPlaced n s2 = record { placed = h1.placed; jobs = h1.jobs } in
      elim failed as (λ b. IsPlaced n (if b then unregister name host config.id s2 else s2)) [
        | true ↦ unregister-IsPlaced name host config.id s2 h2
        | false ↦ h2
      ]

  place-IsPlaced :
      (name : Text) (config : Option HostJob) (s : State W C)
      → IsPlaced n s
      → Holds (IsPlaced n) (place services name config s)
  unfolding place
  place-IsPlaced name none s h = tt
  place-IsPlaced name (some config) s h =
      let (id, w1) = services.random_job_id s.world in
      let (hosts, failed, w2) = services.list_hosts w1 in bind (pick_host s.self name hosts) id w2
    where
      bind :
          (o : Outcome Host) (id : Text) (w : W)
          → Holds (IsPlaced n) (
              o >>= λ g. done (
                submit services name g.id
                  (record config { id = id })
                  (record s { watches = s.watches ++ g.id ∷ []; world = w })))
      bind (done g) id w =
          submit-IsPlaced name g.id (record config { id = id })
            (record s { watches = s.watches ++ g.id ∷ []; world = w })
            (record { placed = h.placed; jobs = h.jobs })
      bind (panic e) id w = tt

  stop-IsPlaced :
      (name : Text) (k : JobKey) (s : State W C)
      → IsPlaced n s
      → Holds (IsPlaced n) (stop services name k s)
  unfolding stop
  stop-IsPlaced name (host, id) s h = stopped (HostClients.get host s.hosts)
    where
      stopped :
          (client : Option C)
          → Holds (IsPlaced n) (elim client [
            | none ↦ panic nil_dereference
            | some c ↦
                let (failed, w) = services.stop_job c id s.world in
                done (unregister name host id (record s { world = w }))
          ])
      stopped none = tt
      stopped (some c) =
          let w = (services.stop_job c id s.world).1 in
          unregister-IsPlaced name host id (record s { world = w })
            (record { placed = h.placed; jobs = h.jobs })

  pub rectify-IsPlaced : (s : State W C) → IsPlaced n s → Holds (IsPlaced n) (rectify services s)
  rectify-IsPlaced s = rectify-Holds services (IsPlaced n) place-IsPlaced stop-IsPlaced s

  pub remove_job-IsPlaced :
      (typ host id : Text) (s : State W C)
      → IsPlaced n s
      → Holds (IsPlaced n) (remove_job services typ host id s)
  unfolding remove_job
  remove_job-IsPlaced typ host id s h =
      rectify-IsPlaced
        (record s { self = record s.self { jobs = JobTypes.remove typ host id s.self.jobs } })
        (record { placed = h.placed; jobs = h.jobs })
