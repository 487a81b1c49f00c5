-- ===== src/Scheduler/Steps/Synced.antt =====
-- The loops of syncCluster of scheduler/main.go, over what they keep.
use flynn_controller.Prelude.{
  ℕ, ◌<◌, false, Option, none, some, List, [], ◌∷◌, map, Text, text_eq, pair_eq, nat_eq, All,
  All-append, Bool-cases, inl, inr,
}
use flynn_controller.Prelude.Map
use flynn_controller.Prelude.Map.{Map, get-entry}
use flynn_controller.Types.{Host, HostJob}
use flynn_controller.Scheduler.State.{Job, Addr, Services}
use flynn_controller.Scheduler.Context.{Context, rectify_formation}
use flynn_controller.Scheduler.Steps.Grounded.{IsGrounded, IsGroundedTask}
use flynn_controller.Utils.{read, attr_app, attr_release, attr_type}
use flynn_controller.Scheduler.Extending.{skips}
use flynn_controller.Scheduler.Sync.{
  Sync, find_formation, sync_new, sync_job, sync_jobs, sync_hosts, sync_cluster,
}
use flynn_controller.Scheduler.Steps.Entered.{
  IsEntered, enter_found-IsEntered, find_formation-IsFound,
}

module _ {W C : Type 0} (services : Services W C) where
  sync_new-IsEntered :
      (app_id release_id type host id : Text) (o : Option Job) (y : Sync W C)
      → IsEntered y
      → IsEntered (sync_new services app_id release_id type host id o y)
  unfolding sync_new
  sync_new-IsEntered app_id release_id type host id (some known) y h = h
  sync_new-IsEntered app_id release_id type host id none y h =
      let (addr, entered_y) = find_formation-IsFound services app_id release_id y h in
      enter_found-IsEntered type host id (find_formation services app_id release_id y).0
        (find_formation services app_id release_id y).1 addr entered_y

  sync_job-IsEntered :
      (host : Text) (job : HostJob) (y : Sync W C)
      → IsEntered y
      → IsEntered (sync_job services host job y)
  unfolding sync_job
  sync_job-IsEntered host job y h = elim (Bool-cases (skips job)) [
    | inl skip ↦ rw skip h
    | inr more ↦ rw more (
        sync_new-IsEntered (read attr_app job.attributes) (read attr_release job.attributes)
          (read attr_type job.attributes) host job.id _ y h)
  ]

  sync_jobs-IsEntered :
      (host : Text) (jobs : List HostJob) (y : Sync W C)
      → IsEntered y
      → IsEntered (sync_jobs services host jobs y)
  unfolding sync_jobs
  sync_jobs-IsEntered host [] y h = h
  sync_jobs-IsEntered host (job ∷ jobs) y h =
      sync_jobs-IsEntered host jobs (sync_job services host job y) (sync_job-IsEntered host job y h)

  sync_hosts-IsEntered :
      (hosts : Map Text Host) (y : Sync W C) → IsEntered y → IsEntered (sync_hosts services hosts y)
  unfolding sync_hosts
  sync_hosts-IsEntered [] y h = h
  sync_hosts-IsEntered ((k, g) ∷ hosts) y h =
      sync_hosts-IsEntered hosts (sync_jobs services g.id g.jobs y)
        (sync_jobs-IsEntered g.id g.jobs y h)

  rectify_tasks :
      (n : ℕ) (m : Map Addr (Unit {0}))
      → All (λ (e : Addr × Unit {0}). e.0 < n) m
      → All (IsGroundedTask n) (map (rectify_formation false) (Map.keys m))
  unfolding Map.keys
  rectify_tasks n [] h = tt
  rectify_tasks n ((a, u) ∷ m) h = (h.0, rectify_tasks n m h.1)

  pub sync_cluster-IsGrounded :
      (c : Context W C) → IsGrounded c → IsGrounded (sync_cluster services c)
  unfolding sync_cluster
  sync_cluster-IsGrounded c h =
      let y : Sync W C = record {
        context = record c { world = (services.list_hosts c.world).2 };
        releases = [];
        artifacts = [];
        rectify = [];
      } in
      let start : IsEntered y = record {
        context = record { formations = h.formations; jobs = h.jobs; tasks = h.tasks };
        rectify = tt;
      } in
      let final = sync_hosts-IsEntered (services.list_hosts c.world).0 y start in
      record {
        formations = final.context.formations;
        jobs = final.context.jobs;
        tasks =
            All-append (IsGroundedTask _) _ _ final.context.tasks (rectify_tasks _ _ final.rectify);
      }
