-- ===== src/Scheduler/Following.antt =====
-- watchFormations of scheduler/main.go: what the scheduler makes of a formation that the stream
-- sends, from the change of its own table to the jobs that are there when the goroutine is done.
use flynn_controller.Prelude.{
  get_elem?-append, get_elem?-set, ◌≡◌, refl, ap, Bool, true, none, some, [], ◌∷◌, ◌++◌, Text,
  text_eq, pair_eq, append-nil, length, get_elem?, ℤ, inl, inr, Option-cases,
}
use flynn_controller.Prelude.Map
use flynn_controller.Prelude.Map.{Map, IsUnique, get-put_self}
use flynn_controller.Types.{App, Release, Artifact}
use flynn_controller.Utils.{docker_image}
use flynn_controller.Scheduler.State.{Addr, Formation, Services, done}
use flynn_controller.Scheduler.JobTypes.{jobs_of}
use flynn_controller.Scheduler.Formations
use flynn_controller.Scheduler.Method.{rectify}
use flynn_controller.Scheduler.Context.{
  Context, expanded, new_formation, alloc, set_processes, receive, run_task, rectify_formation,
}
use flynn_controller.Scheduler.Calling.{state_of, returned, call-done}
use flynn_controller.Scheduler.Adding.{Answers}
use flynn_controller.Scheduler.Converging.{IsReady, target}
use flynn_controller.Scheduler.Rectify.{IsReady-of_entries, rectify_converges}

module _ {W C : Type 0} where
  -- The formation at an address has jobs as its processes ask for, of all types.
  pub record IsConverged (a : Addr) (processes : Map Text ℤ) (c : Context W C) : Type 0 where
    pub formation : Formation
    pub stands : get_elem? c.heap a ≡ some formation
    pub counts : (t : Text) → length (jobs_of t formation.jobs) ≡ target t processes

module _ {W C : Type 0} (services : Services W C) (issued : W → Text → Bool)
    (answers : Answers services issued) where
  run_task-IsConverged :
      (a : Addr) (f : Formation) (image : Text) (c : Context W C)
      → get_elem? c.heap a ≡ some f
      → docker_image services.parse_url f.artifact.uri ≡ some image
      → IsUnique f.processes
      → ((t : Text) → IsReady services issued answers t (state_of a f c))
      → (c' : Context W C) × (run_task services (rectify_formation true a) c ≡ done c')
        × IsConverged a f.processes c'
  unfolding run_task
  run_task-IsConverged a f image c at im u ready =
      let (s, run, counts) =
        rectify_converges services issued answers image (state_of a f c) im u ready in
      (
        returned c a s,
        call-done a (rectify services) f s c at run,
        record { formation = s.self; stands = get_elem?-set c.heap a f s.self at; counts = counts },
      )

  -- A formation that is known stands in the heap, has an image, and its jobs are ready.
  pub record IsReceivable (image : Text) (a : Addr) (c : Context W C) : Type 0 where
    pub formation : Formation
    pub stands : get_elem? c.heap a ≡ some formation
    pub image_of : docker_image services.parse_url formation.artifact.uri ≡ some image
    pub ready : (t : Text) → IsReady services issued answers t (state_of a formation c)

  -- The item is received, its formation is registered, a goroutine is started for it, and when the
  -- goroutine has run, the formation is converged.
  pub record Follows (app : App) (release : Release) (artifact : Artifact) (processes : Map Text ℤ)
      (c : Context W C) : Type 0 where
    pub at : Addr
    pub received : Context W C
    pub final : Context W C
    pub receives : receive (expanded app release artifact processes) c ≡ done received
    pub registered : Map.get (app.id, release.id) received.formations ≡ some at
    pub started : received.tasks ≡ c.tasks ++ rectify_formation true at ∷ []
    pub runs : run_task services (rectify_formation true at) received ≡ done final
    pub converged : IsConverged at processes final

  receive_new :
      (image : Text) (app : App) (release : Release) (artifact : Artifact) (processes : Map Text ℤ)
      (c : Context W C)
      → docker_image services.parse_url artifact.uri ≡ some image
      → IsUnique processes
      → Map.get (app.id, release.id) c.formations ≡ none
      → Follows app release artifact processes c
  unfolding receive Formations.get Formations.add Formations.key new_formation alloc
  receive_new image app release artifact processes c im u new =
      let f = new_formation app.id release artifact processes in
      let received : Context W C = record c {
        formations = Map.put (app.id, release.id) (length c.heap) c.formations;
        heap = c.heap ++ f ∷ [];
        tasks = c.tasks ++ rectify_formation true (length c.heap) ∷ [];
      } in
      let (c', run, converged) =
        run_task-IsConverged (length c.heap) f image received (get_elem?-append c.heap f) im u
          (IsReady-of_entries services issued answers (state_of (length c.heap) f received) tt) in
      record {
        at = length c.heap;
        received = received;
        final = c';
        receives = rw (new, receive) (rw (new, Formations.add) refl);
        registered = get-put_self (app.id, release.id) (length c.heap) c.formations;
        started = refl;
        runs = run;
        converged = converged;
      }

  receive_known :
      (image : Text) (app : App) (release : Release) (artifact : Artifact) (processes : Map Text ℤ)
      (a : Addr) (c : Context W C)
      → IsUnique processes
      → Map.get (app.id, release.id) c.formations ≡ some a
      → IsReceivable image a c
      → Follows app release artifact processes c
  unfolding receive Formations.get set_processes
  receive_known image app release artifact processes a c u known r =
      let f : Formation = record r.formation { processes = processes } in
      let called = returned c a (record (state_of a r.formation c) { self = f }) in
      let received : Context W C = record called {
        tasks = called.tasks ++ rectify_formation true a ∷ [];
      } in
      let (c', run, converged) =
        run_task-IsConverged a f image received (get_elem?-set c.heap a r.formation f r.stands)
          r.image_of u
          (λ t. record {
            unique = (r.ready t).unique;
            issues = (r.ready t).issues;
            connected = (r.ready t).connected;
          }) in
      record {
        at = a;
        received = received;
        final = c';
        receives =
            rw (known, receive)
              (rw (call-done a (set_processes processes) r.formation _ c r.stands refl) refl);
        registered = known;
        started = ap (λ ts. ts ++ rectify_formation true a ∷ []) (append-nil c.tasks);
        runs = run;
        converged = converged;
      }

  -- The item of a formation whose artifact has an image is received, and, new or known, its
  -- formation has after the goroutine that is started as many jobs of each type as the item says,
  -- where the services answer and the jobs of a known formation are ready.
  pub receive-Follows :
      (image : Text) (app : App) (release : Release) (artifact : Artifact) (processes : Map Text ℤ)
      (c : Context W C)
      → docker_image services.parse_url artifact.uri ≡ some image
      → IsUnique processes
      → ((a : Addr) → Map.get (app.id, release.id) c.formations ≡ some a → IsReceivable image a c)
      → Follows app release artifact processes c
  receive-Follows image app release artifact processes c im u known =
      elim (Option-cases (Map.get (app.id, release.id) c.formations)) [
        | inl new ↦ receive_new image app release artifact processes c im u new
        | inr (a, present) ↦
            receive_known image app release artifact processes a c u present (known a present)
      ]
