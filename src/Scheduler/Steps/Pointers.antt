-- ===== src/Scheduler/Steps/Pointers.antt =====
-- Every step of the goroutines of scheduler/main.go keeps the pointers to formations good.
use flynn_controller.Prelude.{
  ℕ, ◌+◌, ◌≤◌, ◌<◌, ◌≡◌, sym, true, Option, none, some, List, [], ◌∷◌, ◌++◌, map, Text, text_eq,
  pair_eq, nat_eq, arith, length, length-append, length-set, All, All-IsIn, All-map, All-append,
  All-split, ◌==◌, Bool-cases, inl, inr, Option-cases, append-nil, codes, not, ◌&&◌, subst, set,
}
use flynn_controller.Prelude.Map
use flynn_controller.Prelude.Entries.{All-put, All-delete}
use flynn_controller.Prelude.Map.{Map, get-entry}
use flynn_controller.Scheduler.State.{
  JobKey, Job, FormationKey, Addr, Formation, Services, State, Outcome, done,
}
use flynn_controller.Scheduler.JobMap
use flynn_controller.Scheduler.Method.{rectify, remove_job}
use flynn_controller.Scheduler.Induction.{Holds, Holds-done}
use flynn_controller.Scheduler.Context.{
  Context, Task, rectify_formation, remove_from, watch, call, run_task, StreamItem, new_context,
  watch_event, watch_start, watch_end, watch_dial, new_formation,
}
use flynn_controller.Scheduler.Calling.{
  call-eq-done, state_of, receive-eq-done, Received, ignored, registered, updated,
}
use flynn_controller.Scheduler.Steps.{
  System, begin, Step, receives, runs, begins, dials, gets, ends, Reaches, starts, later,
}
use flynn_controller.Scheduler.Steps.Watchers.{watch_dial-eq-done}
use flynn_controller.Scheduler.Steps.Synced.{sync_cluster-IsGrounded}
use flynn_controller.Scheduler.Steps.Placed.{IsPlaced, rectify-IsPlaced, remove_job-IsPlaced}
use flynn_controller.Scheduler.Steps.Grounded.{
  IsOwned, owned, AreOwned, AreAddrs, IsGrounded, IsGroundedTask, IsGroundedTask-mono,
  AreOwned-mono, AreAddrs-mono,
}

remove_from-grounded :
    (n : ℕ) (j : Job) (host id : Text)
    → IsOwned n j
    → IsGroundedTask n (remove_from j.formation j.type host id)
remove_from-grounded n j host id (owned a e lt) = rw e lt

module _ {W C : Type 0} where
  call-IsGrounded :
      (a : Addr) (method : State W C → Outcome (State W C)) (c c' : Context W C)
      → ((s : State W C) → IsPlaced (length c.heap) s → Holds (IsPlaced (length c.heap)) (method s))
      → a < length c.heap
      → call a method c ≡ done c'
      → IsGrounded c
      → IsGrounded c'
  call-IsGrounded a method c c' keeps lt e h =
      let run = call-eq-done a method c c' e in
      let n = length c.heap in
      let placed : IsPlaced n run.final =
        Holds-done (IsPlaced n) (method (state_of a run.self c))
          (keeps (state_of a run.self c) (record { placed = lt; jobs = h.jobs })) run.ran in
      let same = sym (length-set c.heap a run.final.self) in
      subst IsGrounded (sym run.result) (record {
        formations = subst (λ m. AreAddrs m c.formations) same h.formations;
        jobs = subst (λ m. AreOwned m run.final.jobs) same placed.jobs;
        tasks =
            subst (λ m. All (IsGroundedTask m) (c.tasks ++ map watch run.final.watches)) same
              (All-append (IsGroundedTask n) c.tasks (map watch run.final.watches) h.tasks
                (watches_grounded run.final.watches));
      })
    where
      watches_grounded : (ids : List Text) → All (IsGroundedTask (length c.heap)) (map watch ids)
      watches_grounded [] = tt
      watches_grounded (id ∷ ids) = (tt, watches_grounded ids)

  -- More formations in the heap.
  IsGrounded-extend :
      (c : Context W C) (table : Map FormationKey Addr) (heap : List Formation) (t : Task)
      → length c.heap ≤ length heap
      → AreAddrs (length heap) table
      → IsGroundedTask (length heap) t
      → IsGrounded c
      → IsGrounded (record c { formations = table; heap = heap; tasks = c.tasks ++ t ∷ [] })
  IsGrounded-extend c table heap t le known this h = record {
    formations = known;
    jobs = AreOwned-mono c.jobs le h.jobs;
    tasks =
        All-append (IsGroundedTask (length heap)) c.tasks (t ∷ [])
          (All-map (λ x. IsGroundedTask-mono x le) c.tasks h.tasks) (this, tt);
  }

  Received-IsGrounded :
      {item : StreamItem} {c c' : Context W C} → Received c item c' → IsGrounded c → IsGrounded c'
  Received-IsGrounded ignored h = h
  Received-IsGrounded {c = c} (registered app release artifact processes new) h =
      let heap = c.heap ++ new_formation app.id release artifact processes ∷ [] in
      let len : length heap ≡ length c.heap + 1 = length-append c.heap _ in
      let le : length c.heap ≤ length heap = omega (arith, len) in
      let lt : length c.heap < length heap = omega (arith, len) in
      IsGrounded-extend c (Map.put (app.id, release.id) (length c.heap) c.formations) heap
        (rectify_formation true (length c.heap)) le
        (All-put (λ (e : FormationKey × Addr). e.1 < length heap) (app.id, release.id)
          (length c.heap) c.formations lt (AreAddrs-mono c.formations le h.formations))
        lt h
  Received-IsGrounded {c = c} (updated app release artifact processes a f known stands) h =
      let heap = set c.heap a (record f { processes = processes }) in
      let len : length heap ≡ length c.heap = length-set c.heap a _ in
      let le : length c.heap ≤ length heap = omega (arith, len) in
      let lt : a < length c.heap =
        All-IsIn (λ (e : FormationKey × Addr). e.1 < length c.heap) ((app.id, release.id), a)
          c.formations h.formations (get-entry (app.id, release.id) a c.formations known) in
      subst
        (λ ts. IsGrounded (record c { heap = heap; tasks = ts ++ rectify_formation true a ∷ [] }))
        (sym (append-nil c.tasks))
        (IsGrounded-extend c c.formations heap (rectify_formation true a) le
          (AreAddrs-mono c.formations le h.formations) (omega (arith, len, lt)) h)

  -- The same context but for the goroutines, the connections and the world.
  IsGrounded-tasks :
      (c : Context W C) (tasks : List Task) (hosts : Map Text (Option C)) (w : W)
      → All (IsGroundedTask (length c.heap)) tasks
      → IsGrounded c
      → IsGrounded (record c { tasks = tasks; hosts = hosts; world = w })
  IsGrounded-tasks c tasks hosts w all h = record {
    formations = h.formations;
    jobs = h.jobs;
    tasks = all;
  }

  event-IsGrounded :
      (id event job_id : Text) (c : Context W C)
      → IsGrounded c
      → IsGrounded (watch_event id event job_id c)
  unfolding watch_event JobMap.get JobMap.remove
  event-IsGrounded id event job_id c h =
      elim (Bool-cases (not (event == codes "error") && not (event == codes "stop"))) [
        | inl other ↦ rw (other, watch_event) h
        | inr gone ↦ elim (Option-cases (Map.get (id, job_id) c.jobs)) [
          | inl absent ↦ rw (gone, watch_event) (rw (absent, JobMap.get) h)
          | inr (j, found) ↦
              let this = remove_from-grounded (length c.heap) j id job_id (
                All-IsIn (λ (e : JobKey × Job). IsOwned (length c.heap) e.1) ((id, job_id), j)
                  c.jobs h.jobs (get-entry (id, job_id) j c.jobs found)) in
              rw (gone, watch_event)
                (rw (found, JobMap.get)
                  (record {
                    formations = h.formations;
                    jobs =
                        All-delete (λ (e : JobKey × Job). IsOwned (length c.heap) e.1) (id, job_id)
                          c.jobs h.jobs;
                    tasks =
                        All-append (IsGroundedTask (length c.heap)) c.tasks _ h.tasks (this, tt);
                  }))
        ]
      ]

module _ {W C : Type 0} (services : Services W C) where
  run_task-IsGrounded :
      (t : Task) (c c' : Context W C)
      → IsGroundedTask (length c.heap) t
      → run_task services t c ≡ done c'
      → IsGrounded c
      → IsGrounded c'
  unfolding run_task
  run_task-IsGrounded (rectify_formation locked a) c c' lt e h =
      call-IsGrounded a (rectify services) c c' (rectify-IsPlaced services (length c.heap)) lt e h
  run_task-IsGrounded (remove_from none typ host id) c c' lt e h = absurd lt
  run_task-IsGrounded (remove_from (some a) typ host id) c c' lt e h =
      call-IsGrounded a (remove_job services typ host id) c c'
        (remove_job-IsPlaced services (length c.heap) typ host id) lt e h
  run_task-IsGrounded (watch id) c c' lt e h = let same : c ≡ c' = cc (e) in subst IsGrounded same h

  Step-IsGrounded :
      {y z : System W C} → Step services y z → IsGrounded y.context → IsGrounded z.context
  unfolding begin watch_start watch_end watch_dial
  Step-IsGrounded {y} (receives item c e) h =
      Received-IsGrounded (receive-eq-done item y.context c e) h
  Step-IsGrounded {y} (runs front back t c at work e) h =
      let (this, others) =
        All-split (IsGroundedTask (length y.context.heap)) front back t
          (subst (All (IsGroundedTask (length y.context.heap))) at h.tasks) in
      run_task-IsGrounded t (record y.context { tasks = front ++ back }) c this e
        (IsGrounded-tasks y.context (front ++ back) y.context.hosts y.context.world others h)
  Step-IsGrounded {y} (begins front back id at) h =
      let (this, others) =
        All-split (IsGroundedTask (length y.context.heap)) front back (watch id)
          (subst (All (IsGroundedTask (length y.context.heap))) at h.tasks) in
      IsGrounded-tasks y.context (front ++ back) _ y.context.world others h
  Step-IsGrounded {y} (dials front back id c at e) h =
      let (connection, dialled) = watch_dial-eq-done services id y.context c e in
      subst IsGrounded (sym dialled) (IsGrounded-tasks y.context y.context.tasks _ _ h.tasks h)
  Step-IsGrounded {y} (gets id event job_id i) h = event-IsGrounded id event job_id y.context h
  Step-IsGrounded {y} (ends front back id at) h =
      IsGrounded-tasks y.context y.context.tasks _ y.context.world h.tasks h

-- In whatever order the goroutines run, every entry of the table of formations, every job that the
-- scheduler knows and every goroutine that waits for a formation points to a formation of the heap:
-- no job and no RemoveJob has a nil formation.
pub Reaches-IsGrounded :
    {W C : Type 0} (services : Services W C) {y : System W C}
    → Reaches services y
    → IsGrounded y.context
Reaches-IsGrounded services (starts w) =
    sync_cluster-IsGrounded services (new_context w)
      (record { formations = tt; jobs = tt; tasks = tt })
Reaches-IsGrounded services (later r s) = Step-IsGrounded services s (Reaches-IsGrounded services r)
