-- ===== src/Tests/Steps.antt =====
-- The goroutines of scheduler/main.go, one after the other, on small inputs.
use flynn_controller.Prelude.{
  ℕ, ◌≡◌, refl, none, some, [], ◌∷◌, Text, codes, text_eq, pair_eq, list_eqb, nat_eq, true, false,
  pos, inl,
}
use flynn_controller.Prelude.Map
use flynn_controller.Prelude.Map.{IsUnique}
use flynn_controller.Utils.{read, job_config, docker_image}
use flynn_controller.Scheduler.State.{Outcome, done, panic}
use flynn_controller.Scheduler.HostClients
use flynn_controller.Scheduler.JobTypes.{jobs_of}
use flynn_controller.Scheduler.Method.{
  rectify, pick_host, place, stop, register, unregister, submit,
}
use flynn_controller.Scheduler.Context.{
  Context, new_context, StreamItem, expanded, rectify_formation, remove_from, watch, receive,
  run_task, watch_dial, watch_event,
}
use flynn_controller.Scheduler.Sync.{sync_cluster}
use flynn_controller.Scheduler.Steps.{
  System, streaming, begin, receives, runs, begins, dials, gets, Reaches, starts, later,
}
use flynn_controller.Scheduler.Steps.Watchers.{phases, Reaches-agree}
use flynn_controller.Scheduler.Steps.Grounded.{IsGrounded}
use flynn_controller.Scheduler.Steps.Pointers.{Reaches-IsGrounded}
use flynn_controller.Tests.Scheduling.{services, app, release, artifact, web}

abbrev got : Outcome (Context ℕ Unit) → Context ℕ Unit
got (done c) = c
got (panic e) = new_context 0

abbrev item : StreamItem
item =
    expanded
      (record {
        id = app;
        name = [];
        protected = true;
        meta = [];
        created_at = none;
        updated_at = none;
      })
      release artifact ((web, pos 2) ∷ [])

abbrev synced : Context ℕ Unit
synced = sync_cluster services (new_context 0)

abbrev received : Context ℕ Unit
received = got (receive item synced)

abbrev ran : Context ℕ Unit
ran = got (
    run_task services (rectify_formation true 0)
      (record received { tasks = rectify_formation false 0 ∷ [] }))

abbrev watched : System ℕ Unit
watched =
    begin (codes "h2") (rectify_formation false 0 ∷ []) (record { context = ran; watchers = [] })

abbrev dialled : Context ℕ Unit
dialled = got (watch_dial services (codes "h2") watched.context)

abbrev final : System ℕ Unit
final = record {
  context = watch_event (codes "h2") (codes "stop") (0 ∷ []) dialled;
  watchers = (codes "h2", streaming) ∷ [];
}

program : Unit {0}
unfolding run_task receive sync_cluster rectify job_config docker_image pick_host place stop jobs_of
    register unregister submit read begin watch_dial watch_event Map.has Map.delete Map.get Map.put
    list_eqb HostClients.get HostClients.set
program = tt

run_tasks : ran.tasks ≡ rectify_formation false 0 ∷ watch (codes "h2") ∷ []
unfolding program
run_tasks = refl

watched-Reaches : Reaches services watched
unfolding program
watched-Reaches =
    later
      (later (later (starts 0) (receives item received refl))
        (runs (rectify_formation false 0 ∷ []) [] (rectify_formation true 0) ran refl refl refl))
      (begins (rectify_formation false 0 ∷ []) [] (codes "h2") refl)

final-Reaches : Reaches services final
unfolding program
final-Reaches =
    later (later watched-Reaches (dials [] [] (codes "h2") dialled refl refl))
      (gets (codes "h2") (codes "stop") (0 ∷ []) (inl refl))

-- The job that stopped leaves a goroutine that removes it.
final_tasks :
    final.context.tasks
    ≡ rectify_formation false 0 ∷ remove_from (some 0) web (codes "h2") (0 ∷ []) ∷ []
unfolding program
final_tasks = refl

Reaches-agree_example :
    IsUnique final.watchers
    × ((id : Text) → Map.get id final.watchers ≡ phases (Map.get id final.context.hosts))
Reaches-agree_example = Reaches-agree services final-Reaches

Reaches-IsGrounded_example : IsGrounded final.context
Reaches-IsGrounded_example = Reaches-IsGrounded services final-Reaches
