-- ===== src/Scheduler/JobTypes.antt =====
-- `jobTypeMap` of scheduler/main.go: the jobs of a formation by process type.
use flynn_controller.Prelude.{
  Option, none, some, [], Text, text_eq, pair_eq, ◌==◌, eq_iff, ◌≡◌, arith, if◌then◌else◌,
}
use flynn_controller.Prelude.Map
use flynn_controller.Prelude.Map.{Map, get-put}
use flynn_controller.Scheduler.State.{JobKey, Job, JobTypeMap}

-- m[typ], a nil map where the type is missing
unfoldable pub jobs_of : Text → JobTypeMap → Map JobKey Job
jobs_of typ m = elim (Map.get typ m) [ none ↦ [] | some jobs ↦ jobs ]

-- A write of `job` at a key of the inner map, which is created if it is missing.
unfoldable pub assign : Text → JobKey → Job → JobTypeMap → JobTypeMap
assign typ key job m = Map.put typ (Map.put key job (jobs_of typ m)) m

unfoldable pub add : Text → Text → Text → JobTypeMap → JobTypeMap × Job
unfolding assign
add typ host id m =
    let job : Job = record { type = typ; formation = none } in (assign typ (host, id) job m, job)

unfoldable pub remove : Text → Text → Text → JobTypeMap → JobTypeMap
remove typ host id m = elim (Map.get typ m) [
  | none ↦ m
  | some jobs ↦ Map.put typ (Map.delete (host, id) jobs) m
]

unfoldable pub get : Text → Text → Text → JobTypeMap → Option Job
get typ host id m = Map.get (host, id) (jobs_of typ m)

pub jobs_of-assign :
    (typ t : Text) (key : JobKey) (job : Job) (m : JobTypeMap)
    → jobs_of t (assign typ key job m)
      ≡ (if typ == t then Map.put key job (jobs_of t m) else jobs_of t m)
unfolding jobs_of assign
jobs_of-assign typ t key job m =
    ground (arith, get-put typ t (Map.put key job (jobs_of typ m)) m, eq_iff typ t)

pub jobs_of-remove :
    (typ t host id : Text) (m : JobTypeMap)
    → jobs_of t (remove typ host id m)
      ≡ (if typ == t then Map.delete (host, id) (jobs_of t m) else jobs_of t m)
unfolding jobs_of remove Map.delete
jobs_of-remove typ t host id m =
    ground (arith, get-put typ t (Map.delete (host, id) (jobs_of typ m)) m, eq_iff typ t)
