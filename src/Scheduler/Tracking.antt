-- ===== src/Scheduler/Tracking.antt =====
-- The two records of a job in scheduler/main.go: the formation's `jobs` and the context's `jobs`.
use flynn_controller.Prelude.{
  ◌≡◌, ◌≢◌, refl, sym, ap, ◌∙◌, true, false, Option, none, some, List, [], ◌∷◌, ◌++◌, Text, text_eq,
  pair_eq, ◌==◌, eq_cases, beq_refl, inl, inr, Bool-cases, if◌then◌else◌,
}
use flynn_controller.Prelude.Map
use flynn_controller.Prelude.Map.{
  Map, IsUnique, get-put, get-put_self, get-put_ne, get-delete, get-delete_self, get-delete_ne,
  put-IsUnique, delete-IsUnique,
}
use flynn_controller.Types.{Host, HostJob}
use flynn_controller.Scheduler.State.{
  JobKey, Job, Services, State, Outcome, done, panic, nil_dereference, ◌>>=◌,
}
use flynn_controller.Scheduler.HostClients
use flynn_controller.Scheduler.Method.{
  register, unregister, submit, pick_host, place, stop, rectify,
}
use flynn_controller.Scheduler.Counts.{jobs_in, registered, jobs_in-register, jobs_in-unregister}
use flynn_controller.Scheduler.Induction.{Holds, rectify-Holds}

module _ {W C : Type 0} where
  -- What the context's map says of a job of this formation, the formation's own map confirms, under
  -- the type that the job carries. No type holds a key twice.
  pub record IsTracked (s : State W C) : Type 0 where
    pub owned :
        (k : JobKey) (j : Job)
        → Map.get k s.jobs ≡ some j
        → j.formation ≡ some s.addr
        → Map.get k (jobs_in j.type s) ≡ some j
    pub unique : (t : Text) → IsUnique (jobs_in t s)

  jobs-register :
      (name host id : Text) (s : State W C)
      → (register name host id s).jobs ≡ Map.put (host, id) (registered name s) s.jobs
  unfolding register
  jobs-register name host id s = refl

  jobs-unregister :
      (name host id : Text) (s : State W C)
      → (unregister name host id s).jobs ≡ Map.delete (host, id) s.jobs
  unfolding unregister
  jobs-unregister name host id s = refl

  addr-register : (name host id : Text) (s : State W C) → (register name host id s).addr ≡ s.addr
  unfolding register
  addr-register name host id s = refl

  addr-unregister :
      (name host id : Text) (s : State W C) → (unregister name host id s).addr ≡ s.addr
  unfolding unregister
  addr-unregister name host id s = refl

  pub get-register_ne :
      (name host id t : Text) (k : JobKey) (s : State W C)
      → (host, id) ≢ k
      → Map.get k (jobs_in t (register name host id s)) ≡ Map.get k (jobs_in t s)
  get-register_ne name host id t k s ne = elim (Bool-cases (name == t)) [
    | inl same ↦
        rw (jobs_in-register name host id t s, same)
          (get-put_ne (host, id) k (registered name s) (jobs_in t s) ne)
    | inr other ↦ rw (jobs_in-register name host id t s, other)
  ]

  pub get-register_self :
      (name host id : Text) (s : State W C)
      → Map.get (host, id) (jobs_in name (register name host id s)) ≡ some (registered name s)
  get-register_self name host id s =
      rw (jobs_in-register name host id name s, beq_refl)
        (get-put_self (host, id) (registered name s) (jobs_in name s))

  pub get-unregister_ne :
      (name host id t : Text) (k : JobKey) (s : State W C)
      → (host, id) ≢ k
      → Map.get k (jobs_in t (unregister name host id s)) ≡ Map.get k (jobs_in t s)
  get-unregister_ne name host id t k s ne = elim (Bool-cases (name == t)) [
    | inl same ↦
        rw (jobs_in-unregister name host id t s, same) (get-delete_ne (host, id) k (jobs_in t s) ne)
    | inr other ↦ rw (jobs_in-unregister name host id t s, other)
  ]

  register-IsTracked :
      (name host id : Text) (s : State W C) → IsTracked s → IsTracked (register name host id s)
  register-IsTracked name host id s h = record {
    owned = λ k j e o. elim (eq_cases (host, id) k) [
      | inl same ↦
          let this : registered name s ≡ j = cc (
            get-put_self (host, id) (registered name s) s.jobs,
            jobs-register name host id s,
            same,
            e,
          ) in
          rw (← this, ← same) (get-register_self name host id s)
      | inr other ↦
          get-register_ne name host id j.type k s other
          ∙ h.owned k j
              (sym (get-put_ne (host, id) k (registered name s) s.jobs other)
                ∙ ap (Map.get k) (sym (jobs-register name host id s))
                ∙ e)
              (rw (addr-register name host id s) at o)
    ];
    unique = λ t. elim (Bool-cases (name == t)) [
      | inl same ↦
          rw (jobs_in-register name host id t s, same)
            (put-IsUnique (host, id) (registered name s) (jobs_in t s) (h.unique t))
      | inr other ↦ rw (jobs_in-register name host id t s, other) (h.unique t)
    ];
  }

  unregister-IsTracked :
      (name host id : Text) (s : State W C) → IsTracked s → IsTracked (unregister name host id s)
  unregister-IsTracked name host id s h = record {
    owned = λ k j e o. elim (eq_cases (host, id) k) [
      | inl same ↦ cc (get-delete_self (host, id) s.jobs, jobs-unregister name host id s, same, e)
      | inr other ↦
          get-unregister_ne name host id j.type k s other
          ∙ h.owned k j
              (sym (get-delete_ne (host, id) k s.jobs other)
                ∙ ap (Map.get k) (sym (jobs-unregister name host id s))
                ∙ e)
              (rw (addr-unregister name host id s) at o)
    ];
    unique = λ t. elim (Bool-cases (name == t)) [
      | inl same ↦
          rw (jobs_in-unregister name host id t s, same)
            (delete-IsUnique (host, id) (jobs_in t s) (h.unique t))
      | inr other ↦ rw (jobs_in-unregister name host id t s, other) (h.unique t)
    ];
  }

module _ {W C : Type 0} (services : Services W C) where
  world-IsTracked :
      (s : State W C) (watches : List Text) (w : W)
      → IsTracked s
      → IsTracked (record s { watches = watches; world = w })
  world-IsTracked s watches w h = record { owned = h.owned; unique = h.unique }

  submit-IsTracked :
      (name host : Text) (config : HostJob) (s : State W C)
      → IsTracked s
      → IsTracked (submit services name host config s)
  unfolding submit
  submit-IsTracked name host config s h =
      let s1 = register name host config.id s in
      let (failed, w) = services.add_jobs host config s1.world in
      let s2 : State W C = record s1 { world = w } in
      let h2 = world-IsTracked s1 s1.watches w (register-IsTracked name host config.id s h) in
      elim failed as (λ b. IsTracked (if b then unregister name host config.id s2 else s2)) [
        | true ↦ unregister-IsTracked name host config.id s2 h2
        | false ↦ h2
      ]

  place-IsTracked :
      (name : Text) (config : Option HostJob) (s : State W C)
      → IsTracked s
      → Holds IsTracked (place services name config s)
  unfolding place
  place-IsTracked name none s h = tt
  place-IsTracked name (some config) s h =
      let (id, w1) = services.random_job_id s.world in
      let (hosts, failed, w2) = services.list_hosts w1 in bind (pick_host s.self name hosts) id w2
    where
      bind :
          (o : Outcome Host) (id : Text) (w : W)
          → Holds IsTracked (
              o >>= λ g. done (
                submit services name g.id
                  (record config { id = id })
                  (record s { watches = s.watches ++ g.id ∷ []; world = w })))
      bind (done g) id w =
          submit-IsTracked name g.id (record config { id = id })
            (record s { watches = s.watches ++ g.id ∷ []; world = w })
            (world-IsTracked s (s.watches ++ g.id ∷ []) w h)
      bind (panic e) id w = tt

  stop-IsTracked :
      (name : Text) (k : JobKey) (s : State W C)
      → IsTracked s
      → Holds IsTracked (stop services name k s)
  unfolding stop
  stop-IsTracked name (host, id) s h = stopped (HostClients.get host s.hosts)
    where
      stopped :
          (client : Option C)
          → Holds IsTracked (elim client [
            | none ↦ panic nil_dereference
            | some c ↦
                let (failed, w) = services.stop_job c id s.world in
                done (unregister name host id (record s { world = w }))
          ])
      stopped none = tt
      stopped (some c) =
          let w = (services.stop_job c id s.world).1 in
          unregister-IsTracked name host id (record s { world = w })
            (world-IsTracked s s.watches w h)

-- Whatever the services answer, when `rectify` returns the two records of the jobs agree as before:
-- a job that the context's map gives to this formation is in the formation's map, under its type.
pub rectify-IsTracked :
    {W C : Type 0} (services : Services W C) (s : State W C)
    → IsTracked s
    → Holds IsTracked (rectify services s)
rectify-IsTracked services s =
    rectify-Holds services IsTracked (place-IsTracked services) (stop-IsTracked services) s
