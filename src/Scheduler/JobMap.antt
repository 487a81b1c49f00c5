-- ===== src/Scheduler/JobMap.antt =====
-- `jobMap` of scheduler/main.go: every job that the scheduler knows, by host and job identifier.
-- Each method holds the map's lock, so a call is one step.
use flynn_controller.Prelude.{Option, Text, text_eq, pair_eq}
use flynn_controller.Prelude.Map
use flynn_controller.Prelude.Map.{Map}
use flynn_controller.Scheduler.State.{JobKey, Job}

unfoldable pub add : Text → Text → Job → Map JobKey Job → Map JobKey Job
add host_id job_id job m = Map.put (host_id, job_id) job m

unfoldable pub remove : Text → Text → Map JobKey Job → Map JobKey Job
remove host job m = Map.delete (host, job) m

unfoldable pub get : Text → Text → Map JobKey Job → Option Job
get host job m = Map.get (host, job) m
