-- ===== src/Scheduler/Extending.antt =====
-- What `syncCluster` of scheduler/main.go leaves alone.
use flynn_controller.Prelude.{
  Bool, Option, none, some, List, [], ◌∷◌, ◌≡◌, refl, ◌∙◌, ap, Text, text_eq, pair_eq, nat_eq, ◌==◌,
  ◌||◌, arith, inl, inr, Bool-cases,
}
use flynn_controller.Prelude.Map
use flynn_controller.Prelude.Map.{Map, get-put_self, get-put_ne, get-entry, get-put}
use flynn_controller.Types.{Host, HostJob}
use flynn_controller.Utils.{read, attr_app, attr_release, attr_type}
use flynn_controller.Scheduler.State.{JobKey, Job, Addr, Services}
use flynn_controller.Scheduler.JobMap
use flynn_controller.Scheduler.Context.{Context}
use flynn_controller.Scheduler.Sync.{
  Sync, find_release, find_artifact, find_formation, enter_job, enter_found, sync_new, sync_job,
  sync_jobs, sync_hosts, sync_cluster,
}

-- the test for a missing attribute
abbrev pub skips : HostJob → Bool
skips job =
    read attr_app job.attributes == []
    || read attr_release job.attributes == []
    || read attr_type job.attributes == []

module _ {W C : Type 0} (services : Services W C) where
  -- Looking for a formation changes neither the jobs nor the hosts.
  find_release-context :
      (id : Text) (y : Sync W C)
      → ((find_release services id y).1.context.jobs ≡ y.context.jobs)
        × ((find_release services id y).1.context.hosts ≡ y.context.hosts)
  unfolding find_release
  find_release-context id y = ground arith

  find_artifact-context :
      (id : Text) (y : Sync W C)
      → ((find_artifact services id y).1.context.jobs ≡ y.context.jobs)
        × ((find_artifact services id y).1.context.hosts ≡ y.context.hosts)
  unfolding find_artifact
  find_artifact-context id y = ground arith

  find_formation-context :
      (app_id release_id : Text) (y : Sync W C)
      → ((find_formation services app_id release_id y).1.context.jobs ≡ y.context.jobs)
        × ((find_formation services app_id release_id y).1.context.hosts ≡ y.context.hosts)
  unfolding find_formation
  find_formation-context app_id release_id y = ground arith

  -- A job that is known stays as it is; the hosts are left alone.
  pub record Extends (y y' : Sync W C) : Type 0 where
    pub hosts : y'.context.hosts ≡ y.context.hosts
    pub known :
        (k : JobKey) (j : Job)
        → Map.get k y.context.jobs ≡ some j
        → Map.get k y'.context.jobs ≡ some j

  Extends-refl : (y : Sync W C) → Extends y y
  Extends-refl y = record { hosts = refl; known = λ k j h. h }

  Extends-trans : {x y z : Sync W C} → Extends x y → Extends y z → Extends x z
  Extends-trans p q = record {
    hosts = q.hosts ∙ p.hosts;
    known = λ k j h. q.known k j (p.known k j h);
  }

  enter_job-Extends :
      (type host id : Text) (a : Addr) (y : Sync W C)
      → Map.get (host, id) y.context.jobs ≡ none
      → Extends y (enter_job type host id a y)
  unfolding enter_job
  enter_job-Extends type host id a y new = record {
    hosts = refl;
    known = λ k j h.
        get-put_ne (host, id) k _ y.context.jobs
          (λ e. cc (ap (λ x. Map.get x y.context.jobs) e, new, h))
        ∙ h;
  }

  find_formation-Extends :
      (app_id release_id : Text) (y : Sync W C)
      → Extends y (find_formation services app_id release_id y).1
  find_formation-Extends app_id release_id y =
      let (jobs, hosts) = find_formation-context app_id release_id y in
      record { hosts = hosts; known = λ k j h. ap (Map.get k) jobs ∙ h }

  sync_new-Extends :
      (app_id release_id type host id : Text) (o : Option Job) (y : Sync W C)
      → Map.get (host, id) y.context.jobs ≡ o
      → Extends y (sync_new services app_id release_id type host id o y)
  unfolding sync_new
  sync_new-Extends app_id release_id type host id (some j) y e = Extends-refl y
  sync_new-Extends app_id release_id type host id none y e =
      let found = find_formation services app_id release_id y in
      let y1 = found.1 in
      let back = find_formation-Extends app_id release_id y in
      let new = ap (Map.get (host, id)) (find_formation-context app_id release_id y).0 ∙ e in
      Extends-trans back (enter found.0 y1 new)
    where
      enter :
          (a : Option Addr) (y1 : Sync W C)
          → Map.get (host, id) y1.context.jobs ≡ none
          → Extends y1 (enter_found type host id a y1)
      enter none y1 new = Extends-refl y1
      enter (some a) y1 new = enter_job-Extends type host id a y1 new

  sync_job-Extends :
      (host : Text) (job : HostJob) (y : Sync W C) → Extends y (sync_job services host job y)
  unfolding sync_job JobMap.get sync_new read
  sync_job-Extends host job y = elim (Bool-cases (skips job)) [
    | inl skip ↦ rw skip (Extends-refl y)
    | inr more ↦ rw more (
        sync_new-Extends (read attr_app job.attributes) (read attr_release job.attributes)
          (read attr_type job.attributes) host job.id _ y refl)
  ]

  pub sync_jobs-Extends :
      (host : Text) (jobs : List HostJob) (y : Sync W C)
      → Extends y (sync_jobs services host jobs y)
  unfolding sync_jobs
  sync_jobs-Extends host [] y = Extends-refl y
  sync_jobs-Extends host (job ∷ jobs) y =
      Extends-trans (sync_job-Extends host job y)
        (sync_jobs-Extends host jobs (sync_job services host job y))

  pub sync_hosts-Extends :
      (hosts : Map Text Host) (y : Sync W C) → Extends y (sync_hosts services hosts y)
  unfolding sync_hosts
  sync_hosts-Extends [] y = Extends-refl y
  sync_hosts-Extends ((k, h) ∷ hosts) y =
      Extends-trans (sync_jobs-Extends h.id h.jobs y)
        (sync_hosts-Extends hosts (sync_jobs services h.id h.jobs y))

  -- syncCluster adds no connection to a host, and keeps the jobs that were known.
  pub sync_cluster-hosts : (c : Context W C) → (sync_cluster services c).hosts ≡ c.hosts
  unfolding sync_cluster
  sync_cluster-hosts c =
      (sync_hosts-Extends (services.list_hosts c.world).0 (record {
        context = record c { world = (services.list_hosts c.world).2 };
        releases = [];
        artifacts = [];
        rectify = [];
      })).hosts
