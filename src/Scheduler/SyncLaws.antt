-- ===== src/Scheduler/SyncLaws.antt =====
-- What `syncCluster` of scheduler/main.go enters.
use flynn_controller.Prelude.{
  Option, none, some, List, [], ◌∷◌, ◌≡◌, ◌≢◌, refl, ap, Text, text_eq, pair_eq, nat_eq, arith,
  IsIn, beq_ne, inl, inr, Option-cases,
}
use flynn_controller.Prelude.Map
use flynn_controller.Prelude.Map.{Map, get-put_self, get-put_ne, get-entry, get-put}
use flynn_controller.Types.{Host, HostJob}
use flynn_controller.Utils.{read, attr_app, attr_release, attr_type}
use flynn_controller.Scheduler.State.{JobKey, Job, Addr, Services}
use flynn_controller.Scheduler.JobMap
use flynn_controller.Scheduler.Context.{Context}
use flynn_controller.Scheduler.Sync.{
  Sync, find_release, find_artifact, find_formation, enter_job, enter_found, entered, sync_new,
  sync_job, sync_jobs, sync_hosts, sync_cluster,
}
use flynn_controller.Scheduler.Extending.{Extends, sync_jobs-Extends, sync_hosts-Extends}

-- The job carries the three attributes.
abbrev pub IsListed : HostJob → Type 0
IsListed job =
    (read attr_app job.attributes ≢ [])
    × (read attr_release job.attributes ≢ [])
    × (read attr_type job.attributes ≢ [])

module _ {W C : Type 0} (services : Services W C) where
  -- Every lookup at the controller succeeds.
  pub record Finds : Type 0 where
    pub releases : (id : Text) (w : W) → (services.get_release id w).0 ≢ none
    pub artifacts : (id : Text) (w : W) → (services.get_artifact id w).0 ≢ none
    pub formations : (app release : Text) (w : W) → (services.get_formation app release w).0 ≢ none

  find_release_finds : (id : Text) (y : Sync W C) → Finds → (find_release services id y).0 ≢ none
  unfolding find_release
  find_release_finds id y finds = ground (arith, finds.releases id y.context.world)

  find_artifact_finds : (id : Text) (y : Sync W C) → Finds → (find_artifact services id y).0 ≢ none
  unfolding find_artifact
  find_artifact_finds id y finds = ground (arith, finds.artifacts id y.context.world)

  find_formation_finds :
      (app_id release_id : Text) (y : Sync W C)
      → Finds
      → (find_formation services app_id release_id y).0 ≢ none
  unfolding find_formation
  find_formation_finds app_id release_id y finds =
      let (r, y1) = find_release services release_id y in
      elim (Option-cases (find_release services release_id y).0) [
        | inl e ↦ absurd (find_release_finds release_id y finds e)
        | inr (release, e) ↦
            let y2 =
              (find_artifact services release.artifact_id
                (find_release services release_id y).1).1 in
            ground (
              arith,
              e,
              find_artifact_finds release.artifact_id (find_release services release_id y).1 finds,
              finds.formations app_id release_id y2.context.world,
            )
      ]

  sync_new_enters :
      (app_id release_id type host id : Text) (o : Option Job) (y : Sync W C)
      → Finds
      → Map.get (host, id) y.context.jobs ≡ o
      → Map.get (host, id) (sync_new services app_id release_id type host id o y).context.jobs
        ≢ none
  unfolding sync_new enter_found enter_job
  sync_new_enters app_id release_id type host id (some j) y finds e = λ gone. cc
  sync_new_enters app_id release_id type host id none y finds e =
      entered_found (find_formation services app_id release_id y).0
        (find_formation services app_id release_id y).1
        (find_formation_finds app_id release_id y finds)
    where
      entered_found :
          (f : Option Addr) (y1 : Sync W C)
          → f ≢ none
          → Map.get (host, id) (enter_found type host id f y1).context.jobs ≢ none
      entered_found none y1 h = absurd (h refl)
      entered_found (some a) y1 h =
          λ gone. cc (get-put_self (host, id) (entered type a) y1.context.jobs, gone)

  sync_job_enters :
      (host : Text) (job : HostJob) (y : Sync W C)
      → Finds
      → IsListed job
      → Map.get (host, job.id) (sync_job services host job y).context.jobs ≢ none
  unfolding sync_job JobMap.get sync_new read
  sync_job_enters host job y finds (a, r, t) =
      rw (beq_ne _ [] a, beq_ne _ [] r, beq_ne _ [] t)
        (sync_new_enters (read attr_app job.attributes) (read attr_release job.attributes)
          (read attr_type job.attributes) host job.id _ y finds refl)

  -- A known job does not get lost.
  kept :
      (k : JobKey) {y y' : Sync W C}
      → Extends services y y'
      → Map.get k y.context.jobs ≢ none
      → Map.get k y'.context.jobs ≢ none
  kept k {y} x h gone = elim (Option-cases (Map.get k y.context.jobs)) [
    | inl absent ↦ h absent
    | inr (j, there) ↦ cc (x.known k j there, gone)
  ]

  sync_jobs_enters :
      (host : Text) (job : HostJob) (jobs : List HostJob) (y : Sync W C)
      → Finds
      → IsListed job
      → IsIn job jobs
      → Map.get (host, job.id) (sync_jobs services host jobs y).context.jobs ≢ none
  unfolding sync_jobs
  sync_jobs_enters host job [] y finds l i = absurd i
  sync_jobs_enters host job (x ∷ jobs) y finds l (inl e) =
      kept (host, job.id) (sync_jobs-Extends services host jobs (sync_job services host x y))
        (rw (← e) (sync_job_enters host job y finds l))
  sync_jobs_enters host job (x ∷ jobs) y finds l (inr i) =
      sync_jobs_enters host job jobs (sync_job services host x y) finds l i

  sync_hosts_enters :
      (k : Text) (h : Host) (job : HostJob) (hosts : Map Text Host) (y : Sync W C)
      → Finds
      → IsListed job
      → IsIn (k, h) hosts
      → IsIn job h.jobs
      → Map.get (h.id, job.id) (sync_hosts services hosts y).context.jobs ≢ none
  unfolding sync_hosts
  sync_hosts_enters k h job [] y finds l i m = absurd i
  sync_hosts_enters k h job ((k', g) ∷ hosts) y finds l (inl e) m =
      let same : h ≡ g = ap (λ (p : Text × Host). p.1) e in
      kept (h.id, job.id) (sync_hosts-Extends services hosts (sync_jobs services g.id g.jobs y))
        (rw (← same) (sync_jobs_enters h.id job h.jobs y finds l m))
  sync_hosts_enters k h job ((k', g) ∷ hosts) y finds l (inr i) m =
      sync_hosts_enters k h job hosts (sync_jobs services g.id g.jobs y) finds l i m

-- When the controller answers every lookup, each job that a listed host runs, and that carries the
-- three attributes, is known to the scheduler after syncCluster.
pub sync_cluster_enters :
    {W C : Type 0} (services : Services W C) (c : Context W C) (k : Text) (h : Host) (job : HostJob)
    → Finds services
    → Map.get k (services.list_hosts c.world).0 ≡ some h
    → IsIn job h.jobs
    → IsListed job
    → Map.get (h.id, job.id) (sync_cluster services c).jobs ≢ none
unfolding sync_cluster
sync_cluster_enters services c k h job finds at_k i l =
    sync_hosts_enters services k h job (services.list_hosts c.world).0 _ finds l
      (get-entry k h (services.list_hosts c.world).0 at_k) i
